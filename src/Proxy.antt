-- ===== src/Proxy.antt =====
-- pkg/util/proxy/proxy.go: proxy settings of the operator's environment, and of a user's.
pub mod Laws
use teiid_operator.Prelude.{
  ℕ, Bool, true, false, not, ◌&&◌, ◌||◌, Option, none, some, List, [], ◌∷◌, ◌++◌, ◌==◌, nat_Eq,
  if◌then◌else◌, for_each,
}
use teiid_operator.Text.{Str, text_Eq, codes, has_prefix, split_byte, trim_space}
use teiid_operator.Regex.{
  Re, set, seq, star, group, plus, opt, lit, exactly, none_of, is_digit, find_anchored, group_text,
  Caps,
}
use teiid_operator.Table.{put}
use teiid_operator.Envvar.{EnvVar, get, set_val}

abbrev pub https_proxy : Str
https_proxy = codes "HTTPS_PROXY"

abbrev pub http_proxy : Str
http_proxy = codes "HTTP_PROXY"

abbrev pub no_proxy : Str
no_proxy = codes "NO_PROXY"

-- The words of `strs` are joined by bars; a bar is left out as long as the text is empty.
unfoldable pub add_no_proxy : Str → Str → Str
unfolding trim_space
add_no_proxy noproxy s =
    if noproxy == [] then trim_space s else noproxy ++ codes "|" ++ trim_space s

unfoldable pub parse_no_proxy : Str → Str
unfolding split_byte add_no_proxy
parse_no_proxy value = for_each add_no_proxy [] (split_byte value b',')

-- . and .*
abbrev any_byte : Re
any_byte = set (none_of (10 ∷ []))

abbrev scheme : Re
scheme = seq (lit (codes "http")) (seq (opt (set (exactly b's'))) (lit (codes "://")))

-- [^@].*
abbrev filled : Re
filled = seq (set (none_of (b'@' ∷ []))) (star any_byte)

abbrev colon : Re
colon = set (exactly b':')

-- ^https?://(?P<proxyHost>[^@].*):(?P<proxyPort>\d+)
abbrev pub proxy_regex : Re
proxy_regex = seq scheme (seq (group 1 filled) (seq colon (group 2 (plus (set is_digit)))))

-- ^https?://(?P<proxyUser>[^@].*):(?P<proxyPassword>.*)@(?P<proxyHost>.*):(?P<proxyPort>\d+)
abbrev pub proxy_with_user_regex : Re
proxy_with_user_regex = seq scheme (
    seq (group 1 filled) (
      seq colon (
        seq (group 2 (star any_byte)) (
          seq (set (exactly b'@'))
            (seq (group 3 (star any_byte)) (seq colon (group 4 (plus (set is_digit)))))))))

abbrev pub Props : Type 0
Props = List (Str × Str)

unfoldable pub java_prefix : Str → Str
unfolding has_prefix
java_prefix url = if has_prefix url (codes "https") then codes "https." else codes "http."

unfoldable pub parse_http_proxy : Str → Props
unfolding find_anchored group_text java_prefix
parse_http_proxy url =
    let prefix = java_prefix url in
    elim (find_anchored proxy_with_user_regex url) [
      | some found ↦
          (prefix ++ codes "proxyUser", group_text found.1 1)
          ∷ (prefix ++ codes "proxyPassword", group_text found.1 2)
          ∷ (prefix ++ codes "proxyHost", group_text found.1 3)
          ∷ (prefix ++ codes "proxyPort", group_text found.1 4)
          ∷ []
      | none ↦ elim (find_anchored proxy_regex url) [
        | some found ↦
            (prefix ++ codes "proxyHost", group_text found.1 1)
            ∷ (prefix ++ codes "proxyPort", group_text found.1 2)
            ∷ []
        | none ↦ []
      ]
    ]

unfoldable pub is_set : List EnvVar → Str → Bool
unfolding get
is_set envs name = elim (get envs name) [ none ↦ false | some _ ↦ true ]

unfoldable pub value_of : List EnvVar → Str → Str
unfolding get
value_of envs name = elim (get envs name) [ none ↦ [] | some e ↦ e.value ]

-- os.LookupEnv
abbrev pub Environ : Type 0
Environ = Str → Option Str

-- os.Getenv
abbrev pub getenv : Environ → Str → Str
getenv os name = elim (os name) [ none ↦ [] | some v ↦ v ]

unfoldable pub pass_down : Environ → List EnvVar → Str → List EnvVar
unfolding set_val
pass_down os envs name = elim (os name) [ none ↦ envs | some v ↦ set_val envs name v ]

unfoldable pub proxy_envs : Environ → List EnvVar → List EnvVar
proxy_envs os envs =
    if is_set envs https_proxy || (is_set envs http_proxy || is_set envs no_proxy)
    then envs
    else if not (getenv os https_proxy == [])
        || (not (getenv os http_proxy == []) || not (getenv os no_proxy == []))
    then pass_down os (pass_down os (pass_down os envs https_proxy) http_proxy) no_proxy
    else envs

-- The properties of HTTP_PROXY take the place of those of HTTPS_PROXY, where both are set.
unfoldable pub proxy_properties : List EnvVar → Props
unfolding is_set value_of parse_http_proxy parse_no_proxy put
proxy_properties envs =
    let secure =
      if is_set envs https_proxy then parse_http_proxy (value_of envs https_proxy) else [] in
    let plain =
      if is_set envs http_proxy then parse_http_proxy (value_of envs http_proxy) else secure in
    let hosts = parse_no_proxy (value_of envs no_proxy) in
    if is_set envs no_proxy && not (hosts == [])
    then put plain (codes "http.nonProxyHosts") hosts
    else plain

unfoldable pub http_settings : Environ → List EnvVar → List EnvVar × Props
unfolding proxy_properties
http_settings os envs = (proxy_envs os envs, proxy_properties (proxy_envs os envs))
