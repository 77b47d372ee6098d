-- ===== src/Tests/Files.antt =====
-- An archive that is unpacked, and a trust store.
use teiid_operator.Prelude.{◌≡◌, true, false, Option, none, some, List, [], ◌∷◌, ◌++◌, All, arith}
use teiid_operator.Text.{Str, codes}
use teiid_operator.Result.{ok}
use teiid_operator.Exec.{pure}
use teiid_operator.Archive.{Disk, is_legal, unzip}
use teiid_operator.Archive.Confined.{Guards, IsConfined, unzip-IsConfined}
use teiid_operator.KeyStore.{Crypto, create_pkcs12_truststore}
use teiid_operator.KeyStore.Enough.{Ends, Shrinks, create_pkcs12_truststore-Ends}

abbrev out : Str
out = codes "/tmp/x"

-- The state has the files that were made.
abbrev disk : Disk (List Str)
disk = record {
  open_reader = λ src. pure (
      record { name = codes "META-INF"; is_dir = true }
      ∷ record { name = codes "META-INF/vdb.ddl"; is_dir = false }
      ∷ []);
  mkdir_all = λ p. pure tt;
  open_file = λ p w. (ok tt, p ∷ w);
  open_entry = λ f. pure (codes "CREATE DATABASE d");
  copy = λ p content. pure tt;
  join = λ a b. a ++ codes "/" ++ b;
  clean = λ a. a;
  dir = λ a. out;
}

abbrev IsInside : List Str → Type 0
IsInside = All (λ (p : Str). is_legal disk out p ≡ true)

abbrev inside : Guards IsInside disk out
inside = record {
  open_reader = λ src w p. p;
  open_entry = λ f w p. p;
  mkdir_all = λ p h w q. q;
  mkdir_of = λ p h w q. q;
  open_file = λ p h w q. (h, q);
  copy = λ p content h w q. q;
}

unzip-IsConfined_example :
    IsConfined IsInside disk out
      (unzip disk (codes "vdb.zip") out (record { filenames = []; world = [] })).1
unzip-IsConfined_example =
    unzip-IsConfined IsInside disk out inside (codes "vdb.zip")
      (record { filenames = []; world = [] }) (tt, tt)

-- Every byte is a block.
abbrev byte_block : Str → Option Str × Str
byte_block [] = (none, [])
byte_block (c ∷ s) = (some (c ∷ []), s)

abbrev crypto : Crypto Str Str
crypto = record {
  decode = byte_block;
  parse_certificate = λ bytes. ok bytes;
  parse_pkcs1 = λ bytes. ok bytes;
  parse_pkcs8 = λ bytes. ok (some bytes);
  encode = λ key cert password. ok cert;
  encode_trust_store = λ certificates password. ok password;
}

byte_block-Shrinks : Shrinks byte_block
byte_block-Shrinks [] bytes h = ground (arith, h)
byte_block-Shrinks (c ∷ s) bytes h = omega arith

create_pkcs12_truststore-Ends_example :
    Ends (create_pkcs12_truststore crypto (codes "changeit") (codes "ab" ∷ codes "c" ∷ []))
create_pkcs12_truststore-Ends_example =
    create_pkcs12_truststore-Ends crypto byte_block-Shrinks (codes "changeit")
      (codes "ab" ∷ codes "c" ∷ [])
