-- ===== src/KeyStore.antt =====
-- Key stores, pkg/util/pkcs12/pcks12.go. The decoding of PEM, the parsing of certificates and keys, and the
-- encoding of key stores are parameters.
pub mod Enough
use teiid_operator.Prelude.{
  ℕ, zero, suc, Bool, true, false, Option, none, some, List, [], ◌∷◌, ◌++◌, ◌==◌, length,
  if◌then◌else◌,
}
use teiid_operator.Text.{Str, text_Eq, codes}
use teiid_operator.Table.{Table, put}
use teiid_operator.Result.{Result, ok, err, not_found, conflict, panic, failed}
use teiid_operator.Controller.Updater.Decimal.{pos, itoa}

abbrev pub bad_key : Str
bad_key = codes "Failed to Parse the Key supplied"

abbrev pub bad_pem : Str
bad_pem = codes "The supplied Pem certificate for truststore could not be decoded"

-- What the packages `encoding/pem`, `crypto/x509` and `go-pkcs12` do: `Cert` and `Key` are what they make of
-- the bytes of a block; a key in PKCS #8 may be of another kind than RSA, which is `none`. `decode` returns
-- the first block, if there is one, and the rest.
pub record Crypto (Cert Key : Type 0) : Type 0 where
  pub decode : Str → Option Str × Str
  pub parse_certificate : Str → Result Cert
  pub parse_pkcs1 : Str → Result Key
  pub parse_pkcs8 : Str → Result (Option Key)
  pub encode : Key → Cert → Str → Result Str
  pub encode_trust_store : Table Cert → Str → Result Str

module _ {Cert Key : Type 0} (crypto : Crypto Cert Key) where
  open crypto use {decode, parse_certificate, parse_pkcs1, parse_pkcs8, encode, encode_trust_store}

  -- The block is read through a pointer, which is nil where the bytes are no PEM.
  abbrev pub parse_block : {A : Type 0} → (Str → Result A) → Option Str → Result A
  parse_block parse none = err panic
  parse_block parse (some bytes) = parse bytes

  unfoldable pub parse_crt : Str → Result Cert
  parse_crt cert = parse_block parse_certificate (decode cert).0

  unfoldable pub rsa_key : Result (Option Key) → Result Key
  rsa_key (ok (some pk)) = ok pk
  rsa_key (err panic) = err panic
  rsa_key _ = err (failed bad_key)

  unfoldable pub or_pkcs8 : Str → Result Key → Result Key
  unfolding rsa_key
  or_pkcs8 key (ok private_key) = ok private_key
  or_pkcs8 key (err panic) = err panic
  or_pkcs8 key (err _) = rsa_key (parse_block parse_pkcs8 (decode key).0)

  unfoldable pub parse_key : Str → Result Key
  unfolding or_pkcs8
  parse_key key = or_pkcs8 key (parse_block parse_pkcs1 (decode key).0)

  unfoldable pub create_pkcs12_keystore : Str → Str → Str → Result Str
  unfolding parse_crt parse_key
  create_pkcs12_keystore cert key password = elim (parse_crt cert) [
    | err e ↦ err e
    | ok domain_cert ↦ elim (parse_key key) [
      | err e ↦ err e
      | ok private_key ↦ encode private_key domain_cert password
    ]
  ]

  -- The certificates so far, with the number of the next one.
  abbrev pub Certificates : Type 0
  Certificates = ℕ × Table Cert

  abbrev pub add_certificate : Cert → Certificates → Certificates
  add_certificate c (i, certificates) = (suc i, put certificates (codes "cert-" ++ itoa (pos i)) c)

  -- After a block was parsed: the loop ends at its certificate where nothing is left.
  unfoldable pub after_parse :
      Result Cert
      → Certificates
      → Bool
      → (Certificates → Option (Result Certificates))
      → Option (Result Certificates)
  unfolding put itoa
  after_parse (err e) certificates is_last rest = some (err e)
  after_parse (ok trusted_cert) certificates true rest =
      some (ok (add_certificate trusted_cert certificates))
  after_parse (ok trusted_cert) certificates false rest =
      rest (add_certificate trusted_cert certificates)

  unfoldable pub after_decode :
      Option Str
      → Certificates
      → Bool
      → (Certificates → Option (Result Certificates))
      → Option (Result Certificates)
  unfolding after_parse
  after_decode none certificates is_last rest = some (err (failed bad_pem))
  after_decode (some bytes) certificates is_last rest =
      after_parse (parse_certificate bytes) certificates is_last rest

  -- The inner loop, on fuel: `none` is a run that has none left.
  unfoldable pub read_certs : ℕ → Str → Certificates → Option (Result Certificates)
  unfolding after_decode
  read_certs zero pem_cert certificates = none
  read_certs (suc fuel) pem_cert certificates =
      after_decode (decode pem_cert).0 certificates ((decode pem_cert).1 == [])
        (read_certs fuel (decode pem_cert).1)

  -- Each text has as much fuel as it has bytes, and one more.
  unfoldable pub then_all :
      Option (Result Certificates)
      → (Certificates → Option (Result Certificates))
      → Option (Result Certificates)
  then_all none rest = none
  then_all (some (err e)) rest = some (err e)
  then_all (some (ok certificates)) rest = rest certificates

  unfoldable pub read_all : List Str → Certificates → Option (Result Certificates)
  unfolding read_certs then_all
  read_all [] certificates = some (ok certificates)
  read_all (pem_cert ∷ certs) certificates =
      then_all (read_certs (suc (length pem_cert)) pem_cert certificates) (read_all certs)

  unfoldable pub encode_all : Str → Option (Result Certificates) → Option (Result Str)
  encode_all password none = none
  encode_all password (some (err e)) = some (err e)
  encode_all password (some (ok certificates)) = some (encode_trust_store certificates.1 password)

  unfoldable pub create_pkcs12_truststore : Str → List Str → Option (Result Str)
  unfolding read_all encode_all
  create_pkcs12_truststore password certs = encode_all password (read_all certs (0, []))
