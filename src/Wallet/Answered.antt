-- ===== src/Wallet/Answered.antt =====
-- Which reply of the wallet answers which call: a session that goes on uses up its replies in order,
-- one for each call that it makes.
use myt_machine.Base.{
  ◌≡◌, refl, ◌∙◌, sym, ap, subst, Bool, List, [], ◌∷◌, ◌++◌, String, length, length-append, arith,
}
use myt_machine.Errors.{Error, Result, ok, err}
use myt_machine.Json.{Fields}
use myt_machine.Wallet.{Call, Session, Rpc, ◌>>=◌, call, lift, pure, next_reply, later_replies}
use myt_machine.Wallet.Calls.{on_rpc, append_nil, append_assoc}

-- From `s` to `s'`: these replies were used, and these calls made, as many as there are replies.
pub record Consumed (s s' : Session) : Type 0 where
  pub used : List (Result Fields)
  pub made : List Call
  pub replies_are : s.replies ≡ used ++ s'.replies
  pub calls_are : s'.calls ≡ s.calls ++ made
  pub paired : length used ≡ length made

-- The last call from `s` to `s'` was `c`, and the reply of `s` in its place is `answer`.
pub record Answered (s s' : Session) (c : Call) (answer : Fields) : Type 0 where
  pub used : List (Result Fields)
  pub made : List Call
  pub replies_are : s.replies ≡ used ++ (ok answer ∷ s'.replies)
  pub calls_are : s'.calls ≡ s.calls ++ (made ++ c ∷ [])
  pub paired : length used ≡ length made

-- An operation that uses replies in order, where it returns.
abbrev pub Uses : {A : Type 0} → Rpc A → Type 0
Uses {A} m = (s : Session) (a : A) (s' : Session) → m s ≡ (ok a, s') → Consumed s s'

pub Consumed-refl : (s : Session) → Consumed s s
Consumed-refl s = record {
  used = [];
  made = [];
  replies_are = refl;
  calls_are = append_nil s.calls;
  paired = refl;
}

pub Consumed-trans : (s s1 s2 : Session) → Consumed s s1 → Consumed s1 s2 → Consumed s s2
Consumed-trans s s1 s2 a b = record {
  used = a.used ++ b.used;
  made = a.made ++ b.made;
  replies_are =
      a.replies_are
      ∙ ap (λ t. a.used ++ t) b.replies_are
      ∙ sym (append_assoc a.used b.used s2.replies);
  calls_are = b.calls_are ∙ ap (λ t. t ++ b.made) a.calls_are ∙ append_assoc s.calls a.made b.made;
  paired =
      omega (arith, length-append a.used b.used, length-append a.made b.made, a.paired, b.paired);
}

-- Calls before the one that is answered.
pub Answered-after :
    (s s1 s2 : Session) (c : Call) (answer : Fields)
    → Consumed s s1
    → Answered s1 s2 c answer
    → Answered s s2 c answer
Answered-after s s1 s2 c answer a b = record {
  used = a.used ++ b.used;
  made = a.made ++ b.made;
  replies_are =
      a.replies_are
      ∙ ap (λ t. a.used ++ t) b.replies_are
      ∙ sym (append_assoc a.used b.used (ok answer ∷ s2.replies));
  calls_are =
      b.calls_are
      ∙ ap (λ t. t ++ (b.made ++ c ∷ [])) a.calls_are
      ∙ append_assoc s.calls a.made (b.made ++ c ∷ [])
      ∙ ap (λ t. s.calls ++ t) (sym (append_assoc a.made b.made (c ∷ [])));
  paired =
      omega (arith, length-append a.used b.used, length-append a.made b.made, a.paired, b.paired);
}

pub Answered-Consumed :
    (s s' : Session) (c : Call) (answer : Fields) → Answered s s' c answer → Consumed s s'
Answered-Consumed s s' c answer a = record {
  used = a.used ++ ok answer ∷ [];
  made = a.made ++ c ∷ [];
  replies_are = a.replies_are ∙ sym (append_assoc a.used (ok answer ∷ []) s'.replies);
  calls_are = a.calls_are;
  paired =
      omega (arith, length-append a.used (ok answer ∷ []), length-append a.made (c ∷ []), a.paired);
}

no_reply : {A : Type 0} {e : Error} {a : A} → ◌≡◌ {A = Result A} (err e) (ok a) → ⊥
no_reply h = ground arith

-- A call that returns was answered by the next reply.
pub call-Answered :
    (method : String) (params : Fields) (mutation : Bool) (s : Session) (answer : Fields)
    (s' : Session)
    → call method params mutation s ≡ (ok answer, s')
    → Answered s s' (record { method = method; params = params; mutation = mutation }) answer
unfolding call
call-Answered method params mutation s answer s' h =
    next (record { method = method; params = params; mutation = mutation }) s.replies s.calls h
  where
    next :
        (c : Call) (rs : List (Result Fields)) (cs : List Call)
        → ◌≡◌ {A = Result Fields × Session}
            (next_reply rs, record { replies = later_replies rs; calls = cs ++ c ∷ [] })
            (ok answer, s')
        → Answered (record { replies = rs; calls = cs }) s' c answer
    next c [] cs k = absurd (no_reply (ap (λ t. t.0) k))
    next c (r ∷ rs) cs k = record {
      used = [];
      made = [];
      replies_are =
          ap (λ x. x ∷ rs) (ap (λ t. t.0) k)
          ∙ ap (λ (t : Result Fields × Session). ok answer ∷ t.1.replies) k;
      calls_are = sym (ap (λ (t : Result Fields × Session). t.1.calls) k);
      paired = refl;
    }

pub Uses-call :
    (method : String) (params : Fields) (mutation : Bool) → Uses (call method params mutation)
Uses-call method params mutation s answer s' h =
    Answered-Consumed s s' _ answer (call-Answered method params mutation s answer s' h)

pub Uses-lift : {A : Type 0} (r : Result A) → Uses (lift r)
unfolding lift
Uses-lift {A} r s a s' h =
    subst (Consumed s) (ap (λ (t : Result A × Session). t.1) h) (Consumed-refl s)

pub Uses-pure : {A : Type 0} (a : A) → Uses (pure a)
unfolding pure
Uses-pure {A} b s a s' h =
    subst (Consumed s) (ap (λ (t : Result A × Session). t.1) h) (Consumed-refl s)

pub Uses-bind :
    {A B : Type 0} (m : Rpc A) (f : A → Rpc B) → Uses m → ((a : A) → Uses (f a)) → Uses (m >>= f)
Uses-bind m f um uf s b s' h =
    on_rpc m f s h λ a s1 e1 h1. Consumed-trans s s1 s' (um s a s1 e1) (uf a s1 b s' h1)
