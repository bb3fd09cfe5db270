-- ===== src/Wallet/Calls.antt =====
-- Which calls a session makes: an operation whose new calls all pass a test.
use myt_machine.Base.{
  ◌≡◌, refl, ◌∙◌, ap, Bool, true, not, ◌&&◌, List, [], ◌∷◌, ◌++◌, String, all, all-append, arith,
  ◌||◌, ◌==◌, String_eq, and_parts,
}
use myt_machine.Errors.{Error, Result, ok, err}
use myt_machine.Json.{Fields}
use myt_machine.Wallet.{Call, Session, Rpc, continue, ◌>>=◌, call, lift, pure}

-- The calls that `m` makes all pass the test.
unfoldable pub Only : {A : Type 0} → (Call → Bool) → Rpc A → Type 0
Only test m =
    (s : Session) → (new : List Call) × ((m s).1.calls ≡ s.calls ++ new) × (all test new ≡ true)

-- The methods of the wallet that move no funds and sign nothing.
abbrev pub is_query : String → Bool
is_query method =
    method == "validate_address"
    || method == "check_tx_proof"
    || method == "get_version"
    || method == "get_height"
    || method == "get_address"
    || method == "get_balance"
    || method == "get_transfer_by_txid"
    || method == "get_tx_proof"
    || method == "verify"

-- One of these, not marked as a mutation.
unfoldable pub is_read : Call → Bool
is_read c = not c.mutation && is_query c.method

-- One of these or `sign`, not marked as a mutation.
unfoldable pub is_signing : Call → Bool
is_signing c = not c.mutation && (is_query c.method || c.method == "sign")

-- `validate_address` and `check_tx_proof`, not marked as mutations.
unfoldable pub is_check : Call → Bool
is_check c = not c.mutation && (c.method == "validate_address" || c.method == "check_tx_proof")

all_weaken :
    (test weaker : Call → Bool) (calls : List Call)
    → ((c : Call) → test c ≡ true → weaker c ≡ true)
    → all test calls ≡ true
    → all weaker calls ≡ true
all_weaken test weaker [] h given = refl
all_weaken test weaker (c ∷ calls) h given =
    let (now, later) = and_parts (test c) (all test calls) given in
    rw (h c now, all_weaken test weaker calls h later) refl

pub Only_weaken :
    {A : Type 0} (test weaker : Call → Bool) (m : Rpc A)
    → ((c : Call) → test c ≡ true → weaker c ≡ true)
    → Only test m
    → Only weaker m
unfolding Only
Only_weaken test weaker m h only s =
    let (new, calls, good) = only s in (new, calls, all_weaken test weaker new h good)

pub is_check-is_read : (c : Call) → is_check c ≡ true → is_read c ≡ true
unfolding is_check is_read
is_check-is_read c h = ground arith

pub is_read-is_signing : (c : Call) → is_read c ≡ true → is_signing c ≡ true
unfolding is_read is_signing
is_read-is_signing c h = ground arith

pub append_nil : {A : Type 0} (xs : List A) → xs ≡ xs ++ []
append_nil [] = refl
append_nil (x ∷ xs) = ap (λ t. x ∷ t) (append_nil xs)

pub append_assoc : {A : Type 0} (xs ys zs : List A) → (xs ++ ys) ++ zs ≡ xs ++ (ys ++ zs)
append_assoc [] ys zs = refl
append_assoc (x ∷ xs) ys zs = ap (λ t. x ∷ t) (append_assoc xs ys zs)

pub Only-lift : {A : Type 0} (test : Call → Bool) (r : Result A) → Only test (lift r)
unfolding Only lift
Only-lift test r s = ([], append_nil s.calls, refl)

pub Only-pure : {A : Type 0} (test : Call → Bool) (a : A) → Only test (pure a)
unfolding Only pure
Only-pure test a s = ([], append_nil s.calls, refl)

pub Only-call :
    (test : Call → Bool) (method : String) (params : Fields) (mutation : Bool)
    → test (record { method = method; params = params; mutation = mutation }) ≡ true
    → Only test (call method params mutation)
unfolding Only call
Only-call test method params mutation h s =
    (record { method = method; params = params; mutation = mutation } ∷ [], refl, ground (arith, h))

Only-continue :
    {A B : Type 0} (test : Call → Bool) (f : A → Rpc B) (r : Result A) (s1 : Session)
    → ((a : A) → Only test (f a))
    → (new : List Call) × ((continue r f s1).1.calls ≡ s1.calls ++ new) × (all test new ≡ true)
unfolding Only continue
Only-continue test f (ok a) s1 h = h a s1
Only-continue test f (err e) s1 h = ([], append_nil s1.calls, refl)

pub Only-bind :
    {A B : Type 0} (test : Call → Bool) (m : Rpc A) (f : A → Rpc B)
    → Only test m
    → ((a : A) → Only test (f a))
    → Only test (m >>= f)
unfolding Only ◌>>=◌
Only-bind test m f hm hf s = join s.calls (hm s) (Only-continue test f (m s).0 (m s).1 hf)
  where
    join :
        {c c' : List Call} (start : List Call)
        → (new : List Call) × (c ≡ start ++ new) × (all test new ≡ true)
        → (later : List Call) × (c' ≡ c ++ later) × (all test later ≡ true)
        → (both : List Call) × (c' ≡ start ++ both) × (all test both ≡ true)
    join start (new, calls, good) (later, calls', good') = (
      new ++ later,
      calls' ∙ ap (λ t. t ++ later) calls ∙ append_assoc start new later,
      rw (all-append test new later, good, good') refl,
    )

refused_rpc : {A : Type 0} {e : Error} {a : A} → err e ≡ ok a → ⊥
refused_rpc h = ground arith

on_rpc' {μ} :
    {A B : Type 0} {C : Type μ} (f : A → Rpc B) (r : Result A) (s1 : Session) {b : B} {s' : Session}
    → continue r f s1 ≡ (ok b, s')
    → ((a : A) (s2 : Session)
        → ◌≡◌ {A = Result A × Session} (r, s1) (ok a, s2)
        → f a s2 ≡ (ok b, s')
        → C)
    → C
unfolding continue
on_rpc' f (ok a) s1 h k = k a s1 refl h
on_rpc' f (err e) s1 h k = absurd (refused_rpc (ap (λ t. t.0) h))

-- Inversion of a successful bind.
pub on_rpc {μ} :
    {A B : Type 0} {C : Type μ} (m : Rpc A) (f : A → Rpc B) (s : Session) {b : B} {s' : Session}
    → (m >>= f) s ≡ (ok b, s')
    → ((a : A) (s1 : Session) → m s ≡ (ok a, s1) → f a s1 ≡ (ok b, s') → C)
    → C
unfolding ◌>>=◌
on_rpc m f s h k = on_rpc' f (m s).0 (m s).1 h k

pub on_lift {μ} :
    {A B : Type 0} {C : Type μ} (r : Result A) (f : A → Rpc B) (s : Session) {b : B} {s' : Session}
    → (lift r >>= f) s ≡ (ok b, s')
    → ((a : A) → r ≡ ok a → f a s ≡ (ok b, s') → C)
    → C
unfolding ◌>>=◌ lift continue
on_lift (ok a) f s h k = k a refl h
on_lift (err e) f s h k = absurd (refused_rpc (ap (λ t. t.0) h))
