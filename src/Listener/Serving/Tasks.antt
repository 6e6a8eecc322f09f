-- ===== src/Listener/Serving/Tasks.antt =====
-- The list operations of the listener's events: what a result says of the list it came from.
use docker_socket_policy.Base.{
  ℕ, zero, suc, Bool, true, false, Option, none, some, List, [], ◌∷◌, ◌≡◌, refl, ◌∙◌, subst, ap,
  length, All, arith,
}
use docker_socket_policy.Listener.Serving.{
  Connection, is_done, when, only_if, is_draining, Server, prepend_to, replace_first, update_at,
  joined, with_conns, then_run,
}

pub when-eq-some {ℓ} : {A : Type ℓ} (b : Bool) {a x : A} → when b a ≡ some x → (b ≡ true) × (a ≡ x)
when-eq-some true h = ground arith
when-eq-some false h = cc

pub then_run-eq-some :
    (o : Option Server) (next : Server → Option Server) {s' : Server}
    → then_run o next ≡ some s'
    → (s : Server) × (o ≡ some s) × (next s ≡ some s')
then_run-eq-some none next h = cc
then_run-eq-some (some s) next h = (s, refl, h)

pub with_conns-eq-some :
    (s : Server) (o : Option (List Connection)) {s' : Server}
    → with_conns s o ≡ some s'
    → (cs : List Connection) × (o ≡ some cs) × (record s { conns = cs } ≡ s')
with_conns-eq-some s none h = cc
with_conns-eq-some s (some cs) h = (cs, refl, ground arith)

pub prepend_to-eq-some {ℓ} :
    {A : Type ℓ} (a : A) (o : Option (List A)) {ys : List A}
    → prepend_to a o ≡ some ys
    → (rest : List A) × (o ≡ some rest) × (a ∷ rest ≡ ys)
prepend_to-eq-some a none h = cc
prepend_to-eq-some a (some rest) h = (rest, refl, ground arith)

pub replace_first-eq-some {ℓ} :
    {A : Type ℓ} (o : Option A) (rest : List A) {ys : List A}
    → replace_first o rest ≡ some ys
    → (a : A) × (o ≡ some a) × (a ∷ rest ≡ ys)
replace_first-eq-some none rest h = cc
replace_first-eq-some (some a) rest h = (a, refl, ground arith)

-- A property that the change keeps holds of all that is in the list after it.
pub update_at-All {ℓ} :
    {A : Type ℓ} (P : A → Type 0) (f : A → Option A)
    → ((a b : A) → f a ≡ some b → P a → P b)
    → (i : ℕ) (xs : List A) {ys : List A} → update_at i f xs ≡ some ys
    → All P xs
    → All P ys
update_at-All P f keeps i [] h p = cc
update_at-All P f keeps zero (x ∷ xs) h (p, ps) =
    let (a, e, same) = replace_first-eq-some (f x) xs h in subst (All P) same (keeps x a e p, ps)
update_at-All P f keeps (suc i) (x ∷ xs) h (p, ps) =
    let (rest, e, same) = prepend_to-eq-some x (update_at i f xs) h in
    subst (All P) same (p, update_at-All P f keeps i xs e ps)

pub joined-All :
    (P : Connection → Type 0) (i : ℕ) (cs : List Connection) {ds : List Connection}
    → joined i cs ≡ some ds
    → All P cs
    → All P ds
joined-All P i [] h p = cc
joined-All P zero (c ∷ cs) h (p, ps) =
    let (_, same) = when-eq-some (is_done c.activity) h in subst (All P) same ps
joined-All P (suc i) (c ∷ cs) h (p, ps) =
    let (rest, e, same) = prepend_to-eq-some c (joined i cs) h in
    subst (All P) same (p, joined-All P i cs e ps)

pub only_if-eq-some {ℓ} :
    {A : Type ℓ} (b : Bool) (o : Option A) {a : A}
    → only_if b o ≡ some a
    → (b ≡ true) × (o ≡ some a)
only_if-eq-some true o h = (refl, h)
only_if-eq-some false o h = cc

pub join-eq-some :
    (i : ℕ) (s : Server) {s' : Server}
    → with_conns s (only_if (is_draining s.phase) (joined i s.conns)) ≡ some s'
    → (cs : List Connection) × (is_draining s.phase ≡ true)
      × (joined i s.conns ≡ some cs)
      × (record s { conns = cs } ≡ s')
join-eq-some i s h =
    let (cs, e, same) = with_conns-eq-some s _ h in
    let (on, e1) = only_if-eq-some (is_draining s.phase) (joined i s.conns) e in (cs, on, e1, same)

-- The set of an empty list stays empty.
pub update_at-nil {ℓ} :
    {A : Type ℓ} (i : ℕ) (f : A → Option A) (xs : List A) {ys : List A}
    → xs ≡ []
    → update_at i f xs ≡ some ys
    → ys ≡ []
update_at-nil i f [] e h = cc
update_at-nil i f (x ∷ xs) e h = cc

-- The number of tasks is the same after a change of one.
pub update_at-length {ℓ} :
    {A : Type ℓ} (i : ℕ) (f : A → Option A) (xs : List A) {ys : List A}
    → update_at i f xs ≡ some ys
    → length xs ≡ length ys
update_at-length i f [] h = cc
update_at-length zero f (x ∷ xs) h =
    let (a, _, same) = replace_first-eq-some (f x) xs h in ap length same
update_at-length (suc i) f (x ∷ xs) h =
    let (rest, e, same) = prepend_to-eq-some x (update_at i f xs) h in
    ap suc (update_at-length i f xs e) ∙ ap length same
