-- ===== src/Wallet/Sends.antt =====
-- Operations that check, and then make at most one further call.
use myt_machine.Base.{
  ◌≡◌, refl, ◌∙◌, sym, ap, Bool, true, false, List, [], ◌∷◌, ◌++◌, String, all, all-append, arith,
  inl, inr, ◌⊎◌,
}
use myt_machine.Errors.{Result, ok, err}
use myt_machine.Json.{Fields}
use myt_machine.Wallet.{Call, Session, Rpc, continue, ◌>>=◌, call, lift}
use myt_machine.Wallet.Calls.{Only, is_check, append_nil, append_assoc}

-- From `start` to `end`, calls that check, and then at most one call, which is `Good`.
pub AtMostOne : (Call → Type 0) → List Call → List Call → Type 0
AtMostOne Good start end =
    (checks : List Call) × (all is_check checks ≡ true)
    × ((end ≡ start ++ checks) ⊎ ((c : Call) × Good c × (end ≡ start ++ (checks ++ (c ∷ [])))))

unfoldable pub Sends : {A : Type 0} → (Call → Type 0) → Rpc A → Type 0
Sends Good m = (s : Session) → AtMostOne Good s.calls (m s).1.calls

AtMostOne-none : (Good : Call → Type 0) (start : List Call) → AtMostOne Good start start
unfolding AtMostOne
AtMostOne-none Good start = ([], refl, inl (append_nil start))

AtMostOne-checks :
    (Good : Call → Type 0) (start middle end : List Call)
    → ((new : List Call) × (middle ≡ start ++ new) × (all is_check new ≡ true))
    → AtMostOne Good middle end
    → AtMostOne Good start end
unfolding AtMostOne
AtMostOne-checks Good start middle end (new, same, good) (checks, good', inl h) = (
  new ++ checks,
  rw (all-append is_check new checks, good, good') refl,
  inl (h ∙ ap (λ t. t ++ checks) same ∙ append_assoc start new checks),
)
AtMostOne-checks Good start middle end (new, same, good) (checks, good', inr (c, good_c, h)) = (
  new ++ checks,
  rw (all-append is_check new checks, good, good') refl,
  inr (
    c,
    good_c,
    h
        ∙ ap (λ t. t ++ (checks ++ (c ∷ []))) same
        ∙ append_assoc start new (checks ++ (c ∷ []))
        ∙ ap (λ t. start ++ t) (sym (append_assoc new checks (c ∷ []))),
  ),
)

pub Sends-lift :
    {A B : Type 0} (Good : Call → Type 0) (r : Result A) (f : A → Rpc B)
    → ((a : A) → r ≡ ok a → Sends Good (f a))
    → Sends Good (lift r >>= f)
unfolding Sends ◌>>=◌ lift continue
Sends-lift Good (ok a) f h s = h a refl s
Sends-lift Good (err e) f h s = AtMostOne-none Good s.calls

Sends-continue :
    {A B : Type 0} (Good : Call → Type 0) (m : Rpc A) (f : A → Rpc B) (s : Session) (r : Result A)
    → (m s).0 ≡ r
    → ((a : A) → (m s).0 ≡ ok a → Sends Good (f a))
    → AtMostOne Good (m s).1.calls (continue r f (m s).1).1.calls
unfolding Sends continue
Sends-continue Good m f s (ok a) e h = h a e (m s).1
Sends-continue Good m f s (err e') e h = AtMostOne-none Good (m s).1.calls

pub Sends-bind :
    {A B : Type 0} (Good : Call → Type 0) (m : Rpc A) (f : A → Rpc B)
    → Only is_check m
    → ((s : Session) (a : A) → (m s).0 ≡ ok a → Sends Good (f a))
    → Sends Good (m >>= f)
unfolding Sends ◌>>=◌ Only
Sends-bind Good m f only h s =
    AtMostOne-checks Good s.calls (m s).1.calls _ (only s)
      (Sends-continue Good m f s (m s).0 refl (h s))

-- The last call: nothing is called after it.
pub no_call : Call → Bool
no_call c = false

no_calls : (new : List Call) → all no_call new ≡ true → new ≡ []
unfolding no_call
no_calls [] h = refl
no_calls (c ∷ new) h = ground arith

Sends-last-continue :
    {A B : Type 0} (f : A → Rpc B) (r : Result A) (s : Session)
    → ((a : A) → Only no_call (f a))
    → (continue r f s).1.calls ≡ s.calls
unfolding Only continue
Sends-last-continue f (ok a) s h =
    let (new, same, none') = h a s in
    same ∙ ap (λ t. s.calls ++ t) (no_calls new none') ∙ sym (append_nil s.calls)
Sends-last-continue f (err e) s h = refl

pub Sends-last :
    {B : Type 0} (Good : Call → Type 0) (method : String) (params : Fields) (mutation : Bool)
    (f : Fields → Rpc B)
    → Good (record { method = method; params = params; mutation = mutation })
    → ((a : Fields) → Only no_call (f a))
    → Sends Good (call method params mutation >>= f)
unfolding Sends ◌>>=◌ call AtMostOne
Sends-last Good method params mutation f good h s = (
  [],
  refl,
  inr (
    record { method = method; params = params; mutation = mutation },
    good,
    Sends-last-continue f _ _ h,
  ),
)
