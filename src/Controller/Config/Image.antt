-- ===== src/Controller/Config/Image.antt =====
-- The image of the build, as the environment names it.
use teiid_operator.Prelude.{
  ◌≡◌, ◌≢◌, refl, nat_beq_iff, nat_Eq, ℕ, false, some, [], ◌∷◌, ◌++◌, ◌==◌, All-append,
  take-length-append, drop_past-append,
}
use teiid_operator.Text.{
  Str, text_Eq, codes, split_byte, Lacks, index_byte-append, split_byte-Lacks, text_beq, ne→neq,
}
use teiid_operator.Result.{ok}
use teiid_operator.Exec.{Exec}
use teiid_operator.Proxy.{Environ, getenv}
use teiid_operator.Controller.Config.{BuildImage, image_of_parts, parse_image_parts, parse_image}
use teiid_operator.Controller.Config.Load.{
  Decoded, set_match_label, set_build_image, read_conf, configure, get_configuration,
}

-- registry/prefix/name:tag
abbrev pub image_text : BuildImage → Str
image_text image =
    image.registry
    ++ (b'/' ∷ (image.image_prefix ++ (b'/' ∷ (image.image_name ++ (b':' ∷ image.tag)))))

-- No part has a slash, and the name no colon.
abbrev pub IsImage : BuildImage → Type 0
IsImage image =
    Lacks b'/' image.registry
    × Lacks b'/' image.image_prefix
    × Lacks b'/' image.image_name
    × Lacks b'/' image.tag
    × Lacks b':' image.image_name

split_byte-append : (w s : Str) (b : ℕ) → Lacks b w → split_byte (w ++ b ∷ s) b ≡ w ∷ split_byte s b
unfolding split_byte
split_byte-append [] s b l = rw ((nat_beq_iff b b).1 refl)
split_byte-append (c ∷ w) s b l = rw (l.0, split_byte-append w s b l.1)

-- An image whose parts have no slash, and whose name has no colon, is read back from its text.
pub parse_image-image_text :
    (image : BuildImage) → IsImage image → parse_image (image_text image) ≡ ok image
unfolding parse_image parse_image_parts image_of_parts
parse_image-image_text image (r, p, n, t, c) = rw (
  split_byte-append image.registry
      (image.image_prefix ++ (b'/' ∷ (image.image_name ++ (b':' ∷ image.tag)))) b'/' r,
  split_byte-append image.image_prefix (image.image_name ++ (b':' ∷ image.tag)) b'/' p,
  split_byte-Lacks (image.image_name ++ (b':' ∷ image.tag)) b'/'
      (All-append (λ (x : ℕ). (x == b'/') ≡ false) image.image_name (b':' ∷ image.tag) n (refl, t)),
  index_byte-append image.image_name image.tag b':' c,
  take-length-append image.image_name (b':' ∷ image.tag),
  drop_past-append image.image_name b':' image.tag,
)

image_text-ne-nil : (image : BuildImage) → image_text image ≢ []
image_text-ne-nil image = go image.registry _
  where
    go : (r s : Str) → r ++ b'/' ∷ s ≢ []
    go [] s e = cc
    go (c ∷ r) s e = cc

module _ {W : Type 0} (read_file : Str → Exec W Str) (filename : Str) (os : Environ)
    (unmarshal : Str → Decoded) where
  -- Where a configuration is read, the environment names no label, and BUILD_IMAGE is the text of an image
  -- whose parts have no slash and whose name has no colon, the configuration is the one of the file with
  -- that image.
  pub get_configuration-image_text :
      (w : W) (text : Str) (image : BuildImage)
      → (read_conf read_file filename (codes "config.yaml") w).0 ≡ ok (some text)
      → getenv os (codes "PROMETHEUS_MONITOR_LABEL_KEY") ≡ []
      → getenv os (codes "BUILD_IMAGE") ≡ image_text image
      → IsImage image
      → (get_configuration read_file filename os unmarshal w).0
        ≡ ok (record (unmarshal text).config { build_image = image })
  unfolding get_configuration configure set_match_label set_build_image text_beq
  get_configuration-image_text w text image read key var h = rw (
    read,
    key,
    var,
    ne→neq (image_text image) [] (image_text-ne-nil image),
    parse_image-image_text image h,
  )
