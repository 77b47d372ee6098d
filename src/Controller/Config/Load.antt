-- ===== src/Controller/Config/Load.antt =====
-- How the configuration is read: GetConfiguration of pkg/util/conf/conf.go, and GetConnectionFactories of
-- pkg/util/conf/connection_factories.go. The files and the decoding of YAML and JSON are parameters.
use teiid_operator.Prelude.{
  ℕ, suc, Bool, ◌||◌, Option, none, some, List, [], ◌∷◌, ◌++◌, ◌==◌, take, if◌then◌else◌,
}
use teiid_operator.Text.{Str, text_Eq, codes, has_prefix}
use teiid_operator.Table.{put}
use teiid_operator.Result.{Result, ok, err, panic}
use teiid_operator.Exec.{Exec, pure, lift, attempt, ◌>>=◌}
use teiid_operator.Proxy.{Environ, getenv}
use teiid_operator.Spring.Convert.{ConnectionFactory}
use teiid_operator.Controller.Config.{Config, BuildImage, parse_image}

-- What `yaml.Unmarshal` leaves in the configuration, whose error is logged only; and whether it made the
-- map of the labels, which is nil where the text has none.
pub record Decoded : Type 0 where
  pub config : Config
  pub has_match_labels : Bool

-- The configuration where nothing was read.
abbrev pub zero_config : Config
zero_config = record {
  teiid_spring_boot_version = [];
  spring_boot_version = [];
  maven_repositories = [];
  build_image = record { registry = []; image_prefix = []; image_name = []; tag = [] };
  match_labels = [];
  labels = [];
  connection_factories = [];
}

-- strings.Index(s, sub); `none` is -1.
unfoldable pub index_text : Str → Str → Option ℕ
unfolding has_prefix
index_text [] sub = if has_prefix [] sub then some 0 else none
index_text (c ∷ s) sub =
    if has_prefix (c ∷ s) sub
    then some 0
    else elim (index_text s sub) [ none ↦ none | some i ↦ some (suc i) ]

-- A label of the environment; a write to a map that is nil panics.
unfoldable pub set_match_label : Environ → Decoded → Result Config
unfolding put
set_match_label os c =
    let key = getenv os (codes "PROMETHEUS_MONITOR_LABEL_KEY") in
    let value = getenv os (codes "PROMETHEUS_MONITOR_LABEL_VALUE") in
    if key == [] || value == []
    then ok c.config
    else if c.has_match_labels
    then ok (record c.config { match_labels = put c.config.match_labels key value })
    else err panic

abbrev pub with_build_image : Config → Result BuildImage → Result Config
with_build_image c (ok image) = ok (record c { build_image = image })
with_build_image c (err e) = err e

unfoldable pub set_build_image : Environ → Config → Result Config
unfolding parse_image
set_build_image os c =
    let image = getenv os (codes "BUILD_IMAGE") in
    if image == [] then ok c else with_build_image c (parse_image image)

module _ {W : Type 0} (read_file : Str → Exec W Str) (filename : Str) where
  -- The file beside the sources, for the tests of the repository; `filename` is the file of the caller.
  unfoldable pub read_beside : Str → Option ℕ → Exec W (Option Str)
  unfolding has_prefix
  read_beside file none = pure none
  read_beside file (some idx) =
      if has_prefix filename (codes "teiid-operator") then pure none else (do
        r ← attempt (read_file (take idx filename ++ codes "/build/conf/" ++ file))
        pure (elim r [ ok text ↦ some text | err _ ↦ none ]))

  unfoldable pub read_or_beside : Str → Result Str → Exec W (Option Str)
  unfolding read_beside index_text
  read_or_beside file (ok text) = pure (some text)
  read_or_beside file (err _) = read_beside file (index_text filename (codes "/pkg/"))

  unfoldable pub read_conf : Str → Exec W (Option Str)
  unfolding read_or_beside
  read_conf file = attempt (read_file (codes "/conf/" ++ file)) >>= read_or_beside file

  -- A configuration that cannot be read is left as it is, without what the environment says.
  unfoldable pub configure : Environ → (Str → Decoded) → Option Str → Exec W Config
  unfolding set_match_label set_build_image
  configure os unmarshal none = pure zero_config
  configure os unmarshal (some text) = do
    labelled ← lift (set_match_label os (unmarshal text))
    lift (set_build_image os labelled)

  unfoldable pub get_configuration : Environ → (Str → Decoded) → Exec W Config
  unfolding read_conf configure
  get_configuration os unmarshal = read_conf (codes "config.yaml") >>= configure os unmarshal

  unfoldable pub get_connection_factories :
      (Str → List (Str × ConnectionFactory)) → Exec W (List (Str × ConnectionFactory))
  unfolding read_conf
  get_connection_factories unmarshal = do
    contents ← read_conf (codes "connection_factories.json")
    pure (elim contents [ none ↦ [] | some text ↦ unmarshal text ])
