-- ===== src/Controller/ConsoleLinks.antt =====
-- Links on the dashboard of a namespace, pkg/util/openshift/webconsole.go. Whatever fails there is only
-- logged.
use teiid_operator.Prelude.{not, ◌||◌, Option, none, some, [], ◌∷◌, ◌++◌, ◌==◌, if◌then◌else◌}
use teiid_operator.Text.{Str, text_Eq, codes}
use teiid_operator.Result.{Result, ok, err, not_found}
use teiid_operator.Exec.{Exec, pure, attempt, ◌>>=◌, ◌>>◌}
use teiid_operator.Controller.Cluster.{Cluster, Route, ConsoleLink}

abbrev pub console_link_name : Str → Str → Str
console_link_name name namespace = name ++ codes "-" ++ namespace

abbrev pub console_link_text : Route → Str
console_link_text route = codes "VirtualDatabase - " ++ route.name

abbrev pub console_link_url : Route → Str
console_link_url route = codes "https://" ++ route.host

unfoldable pub namespace_dashboard_link : Route → Str → Str → ConsoleLink
namespace_dashboard_link route name namespace = record {
  name = console_link_name name namespace;
  label = name;
  text = console_link_text route;
  href = console_link_url route;
  namespaces = namespace ∷ [];
}

-- The link to store where the one that exists points elsewhere.
unfoldable pub corrected_link : Route → ConsoleLink → Option ConsoleLink
corrected_link route link =
    if not (console_link_url route == link.href) || not (console_link_text route == link.text)
    then some (record link { href = console_link_url route; text = console_link_text route })
    else none

module _ {W : Type 0} (cluster : Cluster W) where
  open cluster use {get_console_link, create_console_link, update_console_link, delete_console_link}

  unfoldable pub update_link : Option ConsoleLink → Exec W (Unit {0})
  update_link none = pure tt
  update_link (some link) = do attempt (update_console_link link); pure tt

  unfoldable pub check_console_link : Route → Str → Str → Result ConsoleLink → Exec W (Unit {0})
  unfolding corrected_link update_link
  check_console_link route name namespace (ok link) = update_link (corrected_link route link)
  check_console_link route name namespace (err not_found) = do
    attempt (create_console_link (namespace_dashboard_link route name namespace))
    pure tt
  check_console_link route name namespace (err _) = pure tt

  -- CreateConsoleLink; without a route it does nothing.
  unfoldable pub ensure_console_link : Option Route → Str → Str → Exec W (Unit {0})
  unfolding check_console_link
  ensure_console_link none name namespace = pure tt
  ensure_console_link (some route) name namespace = do
    r ← attempt (get_console_link (console_link_name name namespace))
    check_console_link route name namespace r

  unfoldable pub delete_found : Result ConsoleLink → Exec W (Unit {0})
  delete_found (ok link) = do attempt (delete_console_link link); pure tt
  delete_found (err _) = pure tt

  unfoldable pub remove_console_link : Str → Str → Exec W (Unit {0})
  unfolding delete_found
  remove_console_link namespace name = do
    r ← attempt (get_console_link (console_link_name name namespace))
    delete_found r
