-- ===== src/Tests/Startup.antt =====
-- The start of the operator: watches, configuration, and objects that are created once.
use teiid_operator.Prelude.{◌≡◌, refl, Bool, true, false, some, none, List, [], if◌then◌else◌, ◌==◌}
use teiid_operator.Text.{Str, text_Eq, text_beq, codes}
use teiid_operator.Result.{Result, ok, err, not_found, conflict}
use teiid_operator.Exec.{Exec, pure}
use teiid_operator.Proxy.{Environ}
use teiid_operator.Controller.Config.{BuildImage, parse_image}
use teiid_operator.Controller.Config.Load.{Decoded, read_conf, get_configuration}
use teiid_operator.Controller.Config.Image.{
  image_text, IsImage, parse_image-image_text, get_configuration-image_text,
}
use teiid_operator.Controller.Kubernetes.Resource.{Client, create_if_not_exists}
use teiid_operator.Controller.Kubernetes.Resource.Once.{
  IsStore, looked_up, create_if_not_exists-again,
}
use teiid_operator.Controller.Watches.{Watch, add}
use teiid_operator.Controller.Watches.Order.{recorder, registered, add-registered}
use teiid_operator.Controller.Watches.Wakes.{Wakes}
use teiid_operator.Tests.Samples.{config}

-- Refuses the watch with a predicate.
abbrev picky : Watch → Result (Unit {0})
picky o = if o.has_predicate then err conflict else ok tt

add-registered_example :
    add {W = List Watch} {C = Unit {0}} (λ l. (ok tt, l)) (recorder picky) []
    ≡ registered picky (ok tt) []
add-registered_example = add-registered picky (ok tt) []

abbrev openjdk : BuildImage
openjdk = record {
  registry = codes "quay.io";
  image_prefix = codes "ubi8";
  image_name = codes "openjdk-11";
  tag = codes "1.3";
}

abbrev openjdk_parts : IsImage openjdk
openjdk_parts = (
  (refl, (refl, (refl, (refl, (refl, (refl, (refl, tt))))))),
  (refl, (refl, (refl, (refl, tt)))),
  (refl, (refl, (refl, (refl, (refl, (refl, (refl, (refl, (refl, (refl, tt)))))))))),
  (refl, (refl, (refl, tt))),
  (refl, (refl, (refl, (refl, (refl, (refl, (refl, (refl, (refl, (refl, tt)))))))))),
)

parse_image-image_text_example : parse_image (codes "quay.io/ubi8/openjdk-11:1.3") ≡ ok openjdk
parse_image-image_text_example = parse_image-image_text openjdk openjdk_parts

abbrev build_image_set : Environ
build_image_set name = if name == codes "BUILD_IMAGE" then some (image_text openjdk) else none

abbrev empty_files : Str → Exec Bool Str
empty_files name = pure []

abbrev decode : Str → Decoded
decode text = record { config = config; has_match_labels = false }

get_configuration-image_text_example :
    (get_configuration empty_files [] build_image_set decode true).0
    ≡ ok (record config { build_image = openjdk })
unfolding read_conf text_beq
get_configuration-image_text_example =
    get_configuration-image_text empty_files [] build_image_set decode true [] openjdk refl refl
      refl openjdk_parts

-- Whether the one object is there is the state.
abbrev single : Client Bool Str (Unit {0})
single = record {
  get_name = λ o. o;
  get_namespace = λ o. [];
  get = λ namespace name there. (if there then ok name else err not_found, there);
  create = λ o there. (ok tt, true);
  update = λ o. pure tt;
  update_status = λ o. pure tt;
  delete = λ o there. (ok tt, false);
  list = λ namespace labels. pure tt;
}

abbrev single-IsStore : IsStore single
single-IsStore = record { get-get = λ namespace name w. refl; get-create = λ o w h. refl }

create_if_not_exists-again_example :
    let there : Bool = (create_if_not_exists single (codes "a") false).1 in
    create_if_not_exists single (codes "a") there
    ≡ (ok false, (looked_up single single-IsStore (codes "a") there).1)
unfolding create_if_not_exists
create_if_not_exists-again_example =
    create_if_not_exists-again single single-IsStore (codes "a") false true refl
