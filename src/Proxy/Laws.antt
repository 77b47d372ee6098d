-- ===== src/Proxy/Laws.antt =====
-- What the proxy settings leave of a list of variables.
use teiid_operator.Prelude.{
  ◌≡◌, ◌≢◌, true, false, ◌||◌, some, List, arith, Bool-cases, Option-cases, inl, inr, ◌∙◌, ap,
}
use teiid_operator.Text.{Str, text_Eq, ne→neq}
use teiid_operator.Envvar.{EnvVar, get}
use teiid_operator.Envvar.Lookup.{get-set_val}
use teiid_operator.Proxy.{Environ, is_set, pass_down, proxy_envs, https_proxy, http_proxy, no_proxy}

-- A user's own proxy settings switch those of the cluster off.
pub proxy_envs-user :
    (os : Environ) (envs : List EnvVar)
    → is_set envs https_proxy || (is_set envs http_proxy || is_set envs no_proxy) ≡ true
    → proxy_envs os envs ≡ envs
unfolding proxy_envs
proxy_envs-user os envs h = rw h

pass_down-get :
    (os : Environ) (envs : List EnvVar) (n k : Str)
    → n ≢ k
    → get (pass_down os envs n) k ≡ get envs k
unfolding pass_down
pass_down-get os envs n k h = elim (Option-cases (os n)) [
  | inl e ↦ rw (e, pass_down)
  | inr (v, e) ↦ rw (e, pass_down, get-set_val envs k n v, ne→neq n k h)
]

-- No variable but the three of the proxy is touched.
pub get-proxy_envs :
    (os : Environ) (envs : List EnvVar) (k : Str)
    → https_proxy ≢ k
    → http_proxy ≢ k
    → no_proxy ≢ k
    → get (proxy_envs os envs) k ≡ get envs k
unfolding proxy_envs
get-proxy_envs os envs k h1 h2 h3 = ground (
  arith,
  pass_down-get os (pass_down os (pass_down os envs https_proxy) http_proxy) no_proxy k h3,
  pass_down-get os (pass_down os envs https_proxy) http_proxy k h2,
  pass_down-get os envs https_proxy k h1,
)

unset-ne :
    (envs : List EnvVar) (n k : Str) {e : EnvVar}
    → is_set envs n ≡ false
    → get envs k ≡ some e
    → n ≢ k
unfolding is_set
unset-ne envs n k h s same = ground (arith, h, s, ap (get envs) same)

-- Whatever the cluster sets, every variable of the user's list keeps its entry.
pub proxy_envs-keeps :
    (os : Environ) (envs : List EnvVar) (k : Str) {e : EnvVar}
    → get envs k ≡ some e
    → get (proxy_envs os envs) k ≡ some e
proxy_envs-keeps os envs k s =
    elim (Bool-cases
      (is_set envs https_proxy || (is_set envs http_proxy || is_set envs no_proxy))) [
        | inl t ↦ rw (proxy_envs-user os envs t) s
        | inr f ↦
            get-proxy_envs os envs k (unset-ne envs https_proxy k (ground arith) s)
              (unset-ne envs http_proxy k (ground arith) s)
              (unset-ne envs no_proxy k (ground arith) s)
            ∙ s
      ]
