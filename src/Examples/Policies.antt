-- ===== src/Examples/Policies.antt =====
-- The load and the selection of the example's policies.
use docker_socket_policy.Base.{
  sym, map, ==_iff, Text, true, [], ◌∷◌, ◌≡◌, refl, ◌≢◌, ◌↔◌, ok, err, lit, All, Elem, filter,
}
use docker_socket_policy.Message.{ambiguous_policy}
use docker_socket_policy.Policy.GroupRules.{check_group_add_sound, IsGroup, Distinct}
use docker_socket_policy.Image.{ImageRef, parse_image_ref, matches_image_prefix}
use docker_socket_policy.Image.Namespaces.{InNamespace, matches_image_prefix_iff}
use docker_socket_policy.Manager.{select_for_create, overlap, policies}
use docker_socket_policy.Manager.Selection.{new-select_unambiguous, select_for_create_iff, fits}
use docker_socket_policy.Manager.Invariant.{IsLoaded, new-IsLoaded}
use docker_socket_policy.Manager.Conflicts.{overlap_iff}
use docker_socket_policy.Manager.Load
use docker_socket_policy.Manager.Load.{File, listing}
use docker_socket_policy.Manager.Listing.{NamesFiles, new-Permᴰ}
use mathlib.Core.List.{Permᴰ}
use docker_socket_policy.Examples.{program, engine, web, manager, yaml, directory}

loads : Load.new engine yaml (lit "/policies") directory ≡ ok manager
unfolding program
loads = refl

new-select_unambiguous_example :
    select_for_create engine manager (lit "ghcr.io/acme/app:1") (lit "web")
    ≢ err (ambiguous_policy (lit "ghcr.io/acme/app:1") (lit "web") [])
unfolding program
new-select_unambiguous_example =
    new-select_unambiguous engine yaml (lit "/policies") directory refl (lit "ghcr.io/acme/app:1")
      (lit "web") []

new-IsLoaded_example : All IsLoaded manager.policies_by_name
unfolding program
new-IsLoaded_example = new-IsLoaded engine yaml (lit "/policies") directory refl

select_for_create_iff_example :
    (select_for_create engine manager (lit "ghcr.io/acme/app:1") (lit "web") ≡ ok web) ↔ (
      (r : ImageRef) × (parse_image_ref engine (lit "ghcr.io/acme/app:1") ≡ ok r)
      × (filter (fits r.name (lit "web")) (policies manager) ≡ web ∷ []))
select_for_create_iff_example =
    select_for_create_iff engine manager (lit "ghcr.io/acme/app:1") (lit "web") web

overlap_iff_example :
    (overlap (lit "acme") (lit "acme/app") ≡ true)
    ↔ ((name : Text) × InNamespace name (lit "acme") × InNamespace name (lit "acme/app"))
overlap_iff_example = overlap_iff (lit "acme") (lit "acme/app")

matches_image_prefix_iff_example :
    (matches_image_prefix (lit "acme/app") (lit "acme" ∷ []) ≡ true)
    ↔ ((p : Text) × Elem p (lit "acme" ∷ []) × InNamespace (lit "acme/app") p)
matches_image_prefix_iff_example = matches_image_prefix_iff (lit "acme/app") (lit "acme" ∷ [])

check_group_add_sound_example :
    All IsGroup (lit "audio" ∷ lit "1000" ∷ []) × Distinct (lit "audio" ∷ lit "1000" ∷ [])
unfolding program
check_group_add_sound_example =
    check_group_add_sound (lit "web.yaml") (lit "audio" ∷ lit "1000" ∷ []) refl

abbrev web_file : File
web_file = record { file = lit "web.yaml"; contents = ok (lit "web") }

abbrev db_file : File
db_file = record { file = lit "db.yml"; contents = ok (lit "db") }

other_name : web_file.file ≢ db_file.file
unfolding program
other_name e = let b = (==_iff (lit "web.yaml") (lit "db.yml")).1 e in cc

-- The example's files have names of their own.
two_files-NamesFiles : NamesFiles (web_file ∷ db_file ∷ [])
unfolding program
two_files-NamesFiles f g Elem.here Elem.here e = refl
two_files-NamesFiles f g Elem.here (Elem.there Elem.here) e = absurd (other_name e)
two_files-NamesFiles f g (Elem.there Elem.here) Elem.here e = absurd (other_name (sym e))
two_files-NamesFiles f g (Elem.there Elem.here) (Elem.there Elem.here) e = refl
two_files-NamesFiles f g Elem.here (Elem.there (Elem.there none_left)) e = elim none_left [ ]
two_files-NamesFiles f g (Elem.there Elem.here) (Elem.there (Elem.there none_left)) e =
    elim none_left [ ]
two_files-NamesFiles f g (Elem.there (Elem.there none_left)) k e = elim none_left [ ]

new-Permᴰ_example :
    Load.new engine yaml (lit "/policies") (listing (map ok (web_file ∷ db_file ∷ [])))
    ≡ Load.new engine yaml (lit "/policies") (listing (map ok (db_file ∷ web_file ∷ [])))
new-Permᴰ_example =
    new-Permᴰ engine yaml (lit "/policies") (web_file ∷ db_file ∷ []) (db_file ∷ web_file ∷ [])
      (Permᴰ.swap refl refl) two_files-NamesFiles
