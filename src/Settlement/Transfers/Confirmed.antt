-- ===== src/Settlement/Transfers/Confirmed.antt =====
-- What `payment_status` says of a transaction that it calls confirmed.
use myt_machine.Base.{
  ℕ, ◌≡◌, ◌≤◌, refl, ◌∙◌, sym, ap, subst, true, false, some, List, [], ◌∷◌, Text, ◌==◌, Text_eq,
  ltb, ltb→lt, leb→le, all, any, All, some-injective, and_parts, arith,
}
use myt_machine.Base.Strings.{codes}
use myt_machine.Errors.{
  Result, ok, err, ok-injective, on_ok, rpc_protocol_error, require, require-eq-ok,
}
use myt_machine.Json.{Value, Items, nil, cons, Fields, get, get_or}
use myt_machine.Amounts.{uint64_max}
use myt_machine.Settlement.{rpc_int, rpc_bool, rpc_string, amount_of, nat}
use myt_machine.Settlement.Transfers.{
  Transfer, transfer_types, is_settled_type, in_pool_of, normalize_transfer, normalize_transfers,
  entries_of, has_entries, sum_amounts, safe_sum, min_confirmations, has_type, confirmed, state_of,
  Found, found, status_of,
}

-- A settled type, and on the chain.
pub IsSettled : Transfer → Type 0
IsSettled t = (is_settled_type t.type ≡ true) × (1 ≤ t.confirmations)

normalize_transfer-IsSettled :
    (v : Value) (t : Transfer) → normalize_transfer v ≡ ok t → t.confirmed ≡ true → IsSettled t
unfolding normalize_transfer IsSettled
normalize_transfer-IsSettled (Value.dict f) t h c =
    on_ok (rpc_string (get "type" f) false) _ h λ type e1 h1.
      on_ok (require (any (λ t. type == t) transfer_types) rpc_protocol_error) _ h1 λ u e2 h2.
        on_ok (rpc_int (get_or "confirmations" (nat 0) f) 0 uint64_max) _ h2 λ confirmations e3 h3.
          on_ok (rpc_int (get "amount" f) 0 uint64_max) _ h3 λ amount e4 h4.
            on_ok (rpc_int (get_or "fee" (nat 0) f) 0 uint64_max) _ h4 λ fee e5 h5.
              on_ok (amount_of amount) _ h5 λ amount' e6 h6.
                on_ok (amount_of fee) _ h6 λ fee' e7 h7.
                  on_ok (rpc_int (get_or "height" (nat 0) f) 0 uint64_max) _ h7 λ height e8 h8.
                    on_ok (rpc_bool (get "locked" f)) _ h8 λ locked e9 h9.
                      let same = ok-injective h9 in
                      let (settled, deep) =
                        and_parts (is_settled_type type) (ltb 0 confirmations)
                          (ap (λ x. x.confirmed) same ∙ c) in
                      (
                        ap (λ x. is_settled_type x.type) (sym same) ∙ settled,
                        subst (λ n. 1 ≤ n) (ap (λ x. x.confirmations) same)
                            (ltb→lt 0 confirmations deep),
                      )
normalize_transfer-IsSettled _ t h c = ground arith

normalize_transfers-IsSettled :
    (vs : Items) (ts : List Transfer)
    → normalize_transfers vs ≡ ok ts
    → all (λ t. t.confirmed) ts ≡ true
    → All IsSettled ts
unfolding normalize_transfers
normalize_transfers-IsSettled nil ts h c = subst (All IsSettled) (ok-injective h) tt
normalize_transfers-IsSettled (cons v vs) ts h c = on_ok (normalize_transfer v) _ h λ t e1 h1.
    on_ok (normalize_transfers vs) _ h1 λ rest e2 h2.
      let same = ok-injective h2 in
      let (first, others) = and_parts t.confirmed _ (ap (all (λ t. t.confirmed)) same ∙ c) in
      subst (All IsSettled) same
        (normalize_transfer-IsSettled v t e1 first, normalize_transfers-IsSettled vs rest e2 others)

normalize_transfers-nonempty :
    (vs : Items) (ts : List Transfer)
    → has_entries vs ≡ true
    → normalize_transfers vs ≡ ok ts
    → (t : Transfer) × (rest : List Transfer) × (ts ≡ t ∷ rest)
unfolding normalize_transfers has_entries
normalize_transfers-nonempty nil ts n h = ground arith
normalize_transfers-nonempty (cons v vs) ts n h =
    on_ok (normalize_transfer v) _ h
      λ t e1 h1. on_ok (normalize_transfers vs) _ h1 λ rest e2 h2. (t, rest, sym (ok-injective h2))

min_confirmations-IsSettled :
    (t : Transfer) (ts : List Transfer) → All IsSettled (t ∷ ts) → 1 ≤ min_confirmations (t ∷ ts)
unfolding min_confirmations IsSettled
min_confirmations-IsSettled t [] ((settled, deep), tt) = deep
min_confirmations-IsSettled t (u ∷ ts) ((settled, deep), others) =
    let rest = min_confirmations-IsSettled u ts others in ground arith

state_of-confirmed :
    (ts : List Transfer)
    → state_of ts ≡ confirmed
    → (has_type (codes "failed") ts ≡ false)
      × (has_type (codes "pool") ts ≡ false)
      × (has_type (codes "pending") ts ≡ false)
      × (all (λ t. t.confirmed) ts ≡ true)
unfolding state_of
state_of-confirmed ts h = ground arith

-- What holds of the answer for a confirmed transaction.
pub IsConfirmed : Found → Type 0
IsConfirmed f =
    (f.confirmed ≡ true)
    × (f.failed ≡ false)
    × (f.in_pool ≡ some false)
    × (1 ≤ f.confirmations)
    × (f.amount ≡ sum_amounts f.transfers)
    × (f.amount ≤ uint64_max)
    × All IsSettled f.transfers

amount_of-eq-ok : (n m : ℕ) → amount_of n ≡ ok m → m ≡ n
unfolding amount_of
amount_of-eq-ok n m h = ground arith

safe_sum-eq-ok :
    (ts : List Transfer) (n : ℕ) → safe_sum ts ≡ ok n → (n ≡ sum_amounts ts) × (n ≤ uint64_max)
unfolding safe_sum
safe_sum-eq-ok ts n h = ground (arith, leb→le (sum_amounts ts) uint64_max)

pub found-IsConfirmed :
    (txid : Text) (response : Fields) (f : Found)
    → found txid response ≡ ok f
    → f.state ≡ confirmed
    → IsConfirmed f × (f.txid ≡ txid)
unfolding found IsConfirmed in_pool_of
found-IsConfirmed txid response f h c =
    on_ok (require (has_entries (entries_of response)) rpc_protocol_error) _ h λ u e1 h1.
      on_ok (normalize_transfers (entries_of response)) _ h1 λ ts e2 h2.
        on_ok (safe_sum ts) _ h2 λ total e3 h3. on_ok (amount_of total) _ h3 λ amount e4 h4.
          let same = ok-injective h4 in
          let (failed', pool', pending', all') =
            state_of-confirmed ts (ap (λ x. x.state) same ∙ c) in
          let settled = normalize_transfers-IsSettled (entries_of response) ts e2 all' in
          let (t, rest, is_list) =
            normalize_transfers-nonempty (entries_of response) ts (require-eq-ok _ _ e1) e2 in
          let (sum, bound) = safe_sum-eq-ok ts total e3 in
          let amount_is = amount_of-eq-ok total amount e4 in
          subst (λ x. IsConfirmed x × (x.txid ≡ txid)) same
            (
              (
                all',
                failed',
                rw (pool', pending') refl,
                subst (λ x. 1 ≤ min_confirmations x) (sym is_list)
                    (min_confirmations-IsSettled t rest (subst (All IsSettled) is_list settled)),
                amount_is ∙ sum,
                subst (λ n. n ≤ uint64_max) (sym amount_is) bound,
                settled,
              ),
              refl,
            )

pub status_of-eq-some :
    (txid : Text) (reply : Result Fields) (f : Found)
    → status_of txid reply ≡ ok (some f)
    → (response : Fields) × (found txid response ≡ ok f)
unfolding status_of
status_of-eq-some txid (ok response) f h =
    on_ok (found txid response) _ h
      λ f' e h1. (response, e ∙ ap (λ x. ok x) (some-injective (ok-injective h1)))
status_of-eq-some txid (err e) f h = ground arith
