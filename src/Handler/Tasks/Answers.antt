-- ===== src/Handler/Tasks/Answers.antt =====
-- A task with the answers that it got from the daemon: what it does is what `handle` does over a daemon
-- that gives those answers.
use docker_socket_policy.Base.{
  Text, ℕ, Option, none, some, List, [], ◌∷◌, ◌++◌, ◌≡◌, refl, sym, ap, ◌∙◌, arith, unwrap_or, ok,
  err, get_elem?, length, ◌+◌, suc,
}
use docker_socket_policy.Json.{Body}
use docker_socket_policy.Policy.{Policy}
use docker_socket_policy.Router.{
  RouteResult, Action, deny_action, allow_action, create_container, resolve_container_action,
}
use docker_socket_policy.Handler.{
  HttpRequest, ForwardRequest, World, Handler, handle, inspect_request, outgoing, read_inspect,
  body_json,
}
use docker_socket_policy.Handler.Tasks.{
  Answer, Phase, arrived, reading, inspecting, settled, forwarding, awaiting, answered, Effect,
  quiet, ask, settle_or_ask, read, take_body, inspected, judge_create, decide, advance, apply,
  noted, own,
}
use docker_socket_policy.Handler.Tasks.Moves.{
  Move, turns_away, opens, gives_up, asks, settles, learns, rejects, permits, forwards, hears,
  rests, advance-Move,
}
use docker_socket_policy.Handler.Tasks.Alone.{finish, IsGiven, continue, earlier, advance-finish}

-- The handler over a daemon that gives these answers to the first requests.
abbrev pub replay : Handler → List Answer → List ForwardRequest → ForwardRequest → Answer
replay h answers sent f = unwrap_or (h.transport sent f) (get_elem? answers (length sent))

abbrev pub alone : Handler → List Answer → Handler
alone h answers = record h { transport = replay h answers }

-- Nothing sent, nothing logged.
abbrev pub empty : World
empty = record { forwarded = []; log = [] }

-- No step asks the transport.
module _ (h : Handler) (answers : List Answer) (req : HttpRequest) where
  settle_or_ask-alone :
      (body : Text) (action : Action) (route : RouteResult)
      → settle_or_ask (alone h answers) body action route ≡ settle_or_ask h body action route
  unfolding ask
  settle_or_ask-alone body resolve_container_action route = refl
  settle_or_ask-alone body deny_action route = refl
  settle_or_ask-alone body allow_action route = refl
  settle_or_ask-alone body create_container route = refl

  read-alone : (body : Text) → read (alone h answers) req body ≡ read h req body
  unfolding read body_json
  read-alone body = settle_or_ask-alone body _ _

  read_body-alone :
      (body : Option Text) → take_body (alone h answers) req body ≡ take_body h req body
  read_body-alone none = refl
  read_body-alone (some body) = read-alone body

  inspected-alone : (id : Text) (a : Answer) → inspected (alone h answers) id a ≡ inspected h id a
  unfolding read_inspect
  inspected-alone id (ok resp) = refl
  inspected-alone id (err e) = refl

  judge_create-alone :
      (route : RouteResult) (body : Text) (policy : Option Policy) (json : Option Body)
      → judge_create (alone h answers) req route body policy json
        ≡ judge_create h req route body policy json
  judge_create-alone route body (some policy) (some json) = refl
  judge_create-alone route body (some policy) none = refl
  judge_create-alone route body none (some json) = refl
  judge_create-alone route body none none = refl

  decide-alone :
      (body : Text) (action : Action) (route : RouteResult)
      → decide (alone h answers) req body action route ≡ decide h req body action route
  decide-alone body deny_action route = refl
  decide-alone body allow_action route = refl
  decide-alone body resolve_container_action route = refl
  decide-alone body create_container route = judge_create-alone route body route.policy route.body

  advance-alone :
      (phase : Phase) (a : Answer) → advance (alone h answers) req phase a ≡ advance h req phase a
  unfolding advance
  advance-alone arrived a = refl
  advance-alone reading a = read_body-alone req.body
  advance-alone (inspecting body id) a = ap (λ r. (settled body r, quiet)) (inspected-alone id a)
  advance-alone (settled body route) a = decide-alone body route.action route
  advance-alone (forwarding body) a = refl
  advance-alone (awaiting body) a = refl
  advance-alone (answered r) a = refl

-- A task that is at the daemon has sent one request more than it has answers.
abbrev pub waiting : Phase → ℕ
waiting (inspecting body id) = 1
waiting (awaiting body) = 1
waiting _ = 0

abbrev Balanced : World → ℕ → Phase × Effect → Type 0
Balanced w n (phase, effect) = length (apply effect w).forwarded ≡ n + waiting phase

length-append : (xs : List Answer) (a : Answer) → length (xs ++ a ∷ []) ≡ suc (length xs)
length-append [] a = refl
length-append (x ∷ xs) a = ap suc (length-append xs a)

Move-Balanced :
    (req : HttpRequest) (w : World) {phase : Phase} {p : Phase × Effect} (a : Answer)
    (answers : List Answer)
    → Move req phase p
    → length w.forwarded ≡ length answers + waiting phase
    → Balanced w (length (noted phase a answers)) p
Move-Balanced req w a answers (turns_away uri msg) e = omega arith
Move-Balanced req w a answers opens e = omega arith
Move-Balanced req w a answers gives_up e = omega arith
Move-Balanced req w a answers (asks body id) e = omega arith
Move-Balanced req w a answers (settles body route) e = omega arith
Move-Balanced req w a answers (learns body id route) e = ground (arith, length-append answers a)
Move-Balanced req w a answers (rejects body route msg reason) e = omega arith
Move-Balanced req w a answers (permits body route body' reason) e = omega arith
Move-Balanced req w a answers (forwards body) e = omega arith
Move-Balanced req w a answers (hears body r) e = ground (arith, length-append answers a)
Move-Balanced req w a answers (rests r) e = omega arith

get_elem?-snoc :
    (xs ys : List Answer) (a : Answer) → get_elem? ((xs ++ a ∷ []) ++ ys) (length xs) ≡ some a
get_elem?-snoc [] ys a = refl
get_elem?-snoc (x ∷ xs) ys a = get_elem?-snoc xs ys a

snoc-append : (xs ys : List Answer) (a : Answer) → (xs ++ a ∷ []) ++ ys ≡ xs ++ a ∷ ys
snoc-append [] ys a = refl
snoc-append (x ∷ xs) ys a = ap (λ l. x ∷ l) (snoc-append xs ys a)

noted-append :
    (phase : Phase) (a : Answer) (answers more : List Answer)
    → (more' : List Answer) × (noted phase a answers ++ more ≡ answers ++ more')
noted-append arrived a answers more = (more, refl)
noted-append reading a answers more = (more, refl)
noted-append (inspecting body id) a answers more = (a ∷ more, snoc-append answers more a)
noted-append (settled body route) a answers more = (more, refl)
noted-append (forwarding body) a answers more = (more, refl)
noted-append (awaiting body) a answers more = (a ∷ more, snoc-append answers more a)
noted-append (answered r) a answers more = (more, refl)

length-earlier : (fs : List ForwardRequest) (n : ℕ) → length fs ≡ n + 1 → length (earlier fs) ≡ n
length-earlier [] n e = omega arith
length-earlier (f ∷ fs) n e = omega arith

replay-noted :
    (h : Handler) (answers more : List Answer) (a : Answer) (fs : List ForwardRequest)
    (f : ForwardRequest)
    → length fs ≡ length answers + 1
    → a ≡ replay h ((answers ++ a ∷ []) ++ more) (earlier fs) f
replay-noted h answers more a fs f e =
    rw (length-earlier fs (length answers) e, get_elem?-snoc answers more a) refl

noted-IsGiven :
    (h : Handler) (req : HttpRequest) (w : World) (phase : Phase) (a : Answer)
    (answers more : List Answer)
    → length w.forwarded ≡ length answers + waiting phase
    → IsGiven (alone h (noted phase a answers ++ more)) req phase w a
noted-IsGiven h req w arrived a answers more e = tt
noted-IsGiven h req w reading a answers more e = tt
noted-IsGiven h req w (inspecting body id) a answers more e =
    replay-noted h answers more a w.forwarded (inspect_request id) e
noted-IsGiven h req w (settled body route) a answers more e = tt
noted-IsGiven h req w (forwarding body) a answers more e = tt
noted-IsGiven h req w (awaiting body) a answers more e =
    replay-noted h answers more a w.forwarded (outgoing req body) e
noted-IsGiven h req w (answered r) a answers more e = tt

-- What the task has done is the beginning of what `handle` does over a daemon that gives its answers,
-- and what is left of `handle` is the rest, whatever the daemon answers later.
pub record IsAlone (h : Handler) (req : HttpRequest) (phase : Phase) (answers : List Answer)
    (w : World) : Type 0 where
  pub rest :
      (more : List Answer)
      → finish (alone h (answers ++ more)) req phase w
        ≡ handle (alone h (answers ++ more)) req empty
  pub balance : length w.forwarded ≡ length answers + waiting phase

pub arrived-IsAlone : (h : Handler) (req : HttpRequest) → IsAlone h req arrived [] empty
arrived-IsAlone h req = record { rest = λ more. refl; balance = refl }

pub advance-IsAlone :
    (h : Handler) (req : HttpRequest) (phase : Phase) (answers : List Answer) (w : World)
    (a : Answer)
    → IsAlone h req phase answers w
    → IsAlone h req
        (advance h req phase a).0
        (noted phase a answers)
        (apply (advance h req phase a).1 w)
advance-IsAlone h req phase answers w a own = record {
  rest = λ more.
      let (more', same) = noted-append phase a answers more in
      let g = alone h (noted phase a answers ++ more) in
      ap (λ p. continue g req p w)
        (sym (advance-alone h (noted phase a answers ++ more) req phase a))
      ∙ advance-finish g req w phase a (noted-IsGiven h req w phase a answers more own.balance)
      ∙ (rw same (own.rest more'));
  balance = Move-Balanced req w a answers (advance-Move h req phase a) own.balance;
}
