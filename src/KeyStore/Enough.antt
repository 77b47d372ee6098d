-- ===== src/KeyStore/Enough.antt =====
-- The loop of CreatePkcs12Truststore ends, pkg/util/pkcs12/pcks12.go.
use teiid_operator.Prelude.{
  ℕ, zero, suc, ◌<◌, ◌≡◌, refl, Bool, true, false, Option, none, some, List, [], ◌∷◌, ◌==◌, length,
  arith,
}
use teiid_operator.Text.{Str, text_Eq}
use teiid_operator.Table.{Table}
use teiid_operator.Result.{Result, ok, err}
use teiid_operator.KeyStore.{
  Crypto, after_parse, after_decode, read_certs, then_all, read_all, encode_all,
  create_pkcs12_truststore,
}

-- A run on fuel has ended.
abbrev pub Ends : {A : Type 0} → Option A → Type 0
Ends o = (a : _) × (o ≡ some a)

-- What `pem.Decode` documents: after a block there is less left.
abbrev pub Shrinks : (Str → Option Str × Str) → Type 0
Shrinks decode = (s bytes : Str) → (decode s).0 ≡ some bytes → length (decode s).1 < length s

module _ {Cert Key : Type 0} (crypto : Crypto Cert Key) (shrinks : Shrinks crypto.decode) where
  after_parse-Ends :
      (r : Result Cert) (cs : ℕ × Table Cert) (b : Bool)
      (rest : ℕ × Table Cert → Option (Result (ℕ × Table Cert)))
      → ((x : ℕ × Table Cert) → Ends (rest x))
      → Ends (after_parse crypto r cs b rest)
  unfolding after_parse
  after_parse-Ends (err e) cs b rest k = (err e, refl)
  after_parse-Ends (ok c) cs true rest k = (_, refl)
  after_parse-Ends (ok c) cs false rest k = k _

  after_decode-Ends :
      (o : Option Str) (cs : ℕ × Table Cert) (b : Bool)
      (rest : ℕ × Table Cert → Option (Result (ℕ × Table Cert)))
      → ((bytes : Str) → o ≡ some bytes → (x : ℕ × Table Cert) → Ends (rest x))
      → Ends (after_decode crypto o cs b rest)
  unfolding after_decode
  after_decode-Ends none cs b rest k = (_, refl)
  after_decode-Ends (some bytes) cs b rest k =
      after_parse-Ends (crypto.parse_certificate bytes) cs b rest (k bytes refl)

  read_certs-Ends :
      (fuel : ℕ) (pem : Str) (cs : ℕ × Table Cert)
      → length pem < fuel
      → Ends (read_certs crypto fuel pem cs)
  unfolding read_certs
  read_certs-Ends zero pem cs h = absurd (omega (arith, h))
  read_certs-Ends (suc fuel) pem cs h =
      after_decode-Ends (crypto.decode pem).0 cs ((crypto.decode pem).1 == []) _ (λ bytes e x.
        let less = shrinks pem bytes e in
        read_certs-Ends fuel (crypto.decode pem).1 x (omega (arith, h, less)))

  then_all-Ends :
      (o : Option (Result (ℕ × Table Cert)))
      (rest : ℕ × Table Cert → Option (Result (ℕ × Table Cert)))
      → Ends o
      → ((x : ℕ × Table Cert) → Ends (rest x))
      → Ends (then_all crypto o rest)
  unfolding then_all
  then_all-Ends none rest e k = cc (e.1)
  then_all-Ends (some (err e)) rest h k = (_, refl)
  then_all-Ends (some (ok cs)) rest h k = k cs

  read_all-Ends : (certs : List Str) (cs : ℕ × Table Cert) → Ends (read_all crypto certs cs)
  unfolding read_all
  read_all-Ends [] cs = (_, refl)
  read_all-Ends (pem ∷ certs) cs =
      then_all-Ends _ _ (read_certs-Ends (suc (length pem)) pem cs (omega arith))
        (read_all-Ends certs)

  encode_all-Ends :
      (password : Str) (o : Option (Result (ℕ × Table Cert)))
      → Ends o
      → Ends (encode_all crypto password o)
  unfolding encode_all
  encode_all-Ends password none e = cc (e.1)
  encode_all-Ends password (some (err e)) h = (_, refl)
  encode_all-Ends password (some (ok cs)) h = (_, refl)

  -- Where the decoding of PEM leaves less after a block, as it documents, the loops of
  -- CreatePkcs12Truststore end on the fuel that they are given, which is the length of each text and one
  -- more: the function returns a store or an error, for any texts.
  pub create_pkcs12_truststore-Ends :
      (password : Str) (certs : List Str) → Ends (create_pkcs12_truststore crypto password certs)
  unfolding create_pkcs12_truststore
  create_pkcs12_truststore-Ends password certs =
      encode_all-Ends password _ (read_all-Ends certs (0, []))
