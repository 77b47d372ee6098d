-- ===== src/Controller/Config.antt =====
-- The operator's configuration, pkg/util/conf/conf.go and constants/constants.go.
pub mod Load
pub mod Image
use teiid_operator.Prelude.{ℕ, Option, none, some, List, [], ◌∷◌, take, drop, suc}
use teiid_operator.Text.{Str, codes, split_byte, index_byte}
use teiid_operator.Result.{Result, ok, err, panic}
use teiid_operator.Spring.Convert.{ConnectionFactory}
use teiid_operator.Vdb.{VirtualDatabase, Resources}

pub record BuildImage : Type 0 where
  pub registry : Str
  pub image_prefix : Str
  pub image_name : Str
  pub tag : Str

-- Configuration, and the connection factories beside it: what two files and three variables of the
-- environment set when the operator starts.
pub record Config : Type 0 where
  pub teiid_spring_boot_version : Str
  pub spring_boot_version : Str
  pub maven_repositories : List (Str × Str)
  pub build_image : BuildImage
  pub match_labels : List (Str × Str)
  pub labels : List (Str × Str)
  pub connection_factories : List (Str × ConnectionFactory)

unfoldable pub image_of_parts : Str → Str → Str → Option ℕ → Result BuildImage
image_of_parts registry prefix name none = err panic
image_of_parts registry prefix name (some idx) = ok (record {
  registry = registry;
  image_prefix = prefix;
  image_name = take idx name;
  tag = drop (suc idx) name;
})

-- parseImage indexes the third part and slices it at its first colon, whether or not they are there.
unfoldable pub parse_image_parts : List Str → Result BuildImage
unfolding image_of_parts index_byte
parse_image_parts (registry ∷ prefix ∷ name ∷ rest) =
    image_of_parts registry prefix name (index_byte name b':')
parse_image_parts _ = err panic

unfoldable pub parse_image : Str → Result BuildImage
unfolding parse_image_parts split_byte
parse_image str = parse_image_parts (split_byte str b'/')

-- GetMavenRepositories: the database's own table, or the configured one where that is empty.
unfoldable pub choose_repositories : List (Str × Str) → List (Str × Str) → List (Str × Str)
choose_repositories [] configured = configured
choose_repositories (r ∷ own) configured = r ∷ own

unfoldable pub get_maven_repositories : Config → VirtualDatabase → List (Str × Str)
unfolding choose_repositories
get_maven_repositories config vdb =
    choose_repositories vdb.spec.build.source.maven_repositories config.maven_repositories

-- The test `&vdb.Spec.Resources == nil` is on an address and never holds, so that the default is not taken.
abbrev pub get_computing_resources : VirtualDatabase → Resources
get_computing_resources vdb = vdb.spec.resources

abbrev pub version : Str
version = codes "0.3.0"

abbrev pub builder_image_target_name : Str
builder_image_target_name = codes "virtualdatabase-builder"

abbrev pub keystore_location : Str
keystore_location = codes "/etc/tls/private"

abbrev pub keystore_password : Str
keystore_password = codes "changeit"

abbrev pub keystore_name : Str
keystore_name = codes "keystore.pkcs12"

abbrev pub truststore_name : Str
truststore_name = codes "truststore.pkcs12"
