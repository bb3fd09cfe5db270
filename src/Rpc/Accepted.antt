-- ===== src/Rpc/Accepted.antt =====
-- The responses that `WalletRpcClient.call` of src/myt_machine/rpc.py accepts.
use myt_machine.Base.{
  ℕ, ◌+◌, ◌≡◌, ◌≤◌, refl, ap, Bool, true, false, Option, some, [], ◌∷◌, Text, ℕ_eq, Text_eq, ltb,
  length, take, Bool-cases, inl, inr, arith, text_eq_iff,
}
use myt_machine.Errors.{Error, protocol_error, Result, ok, err, ok-injective}
use myt_machine.Json.{Value, Fields, get, contains, equals_text}
use myt_machine.Amounts.{decimal}
use myt_machine.Rpc.Digest.{Attempt, done, failed}
use myt_machine.Rpc.Client.{
  Decoded, decoded, malformed, raised, Client, payload, result_of, check_response, read_response,
  finish_call, call,
}

refused_call : {A : Type 0} {a : A} {e : Error} → ◌≡◌ {A = Result A} (err e) (ok a) → ⊥
refused_call h = ground arith

-- The body of a response that answers the request with this ID by these fields.
abbrev pub IsAnswer : (Text → Decoded) → ℕ → Text → Text → Fields → Type 0
IsAnswer loads max_bytes id body f =
    (g : Fields) × (length (take (max_bytes + 1) body) ≤ max_bytes)
    × (loads (take (max_bytes + 1) body) ≡ decoded (Value.dict g))
    × (get "id" g ≡ Value.str id)
    × (contains "error" g ≡ false)
    × (get "result" g ≡ Value.dict f)

equals_text-eq : (v : Value) (t : Text) → equals_text v t ≡ true → v ≡ Value.str t
unfolding equals_text
equals_text-eq (Value.str s) t h = ap (λ x. Value.str x) ((text_eq_iff s t).0 h)
equals_text-eq _ t h = ground arith

result_of-eq-ok :
    (mutation : Bool) (v : Value) (f : Fields) → result_of mutation v ≡ ok f → v ≡ Value.dict f
unfolding result_of
result_of-eq-ok mutation (Value.dict g) f h = ap (λ x. Value.dict x) (ok-injective h)
result_of-eq-ok mutation _ f h = absurd (refused_call h)

check_response-eq-ok :
    (mutation : Bool) (id : Text) (v : Value) (f : Fields)
    → check_response mutation id v ≡ ok f
    → (g : Fields) × (v ≡ Value.dict g)
      × (get "id" g ≡ Value.str id)
      × (contains "error" g ≡ false)
      × (get "result" g ≡ Value.dict f)
unfolding check_response
check_response-eq-ok mutation id (Value.dict g) f h =
    elim (Bool-cases (equals_text (get "id" g) id)) [
      | inr other ↦ absurd (refused_call (rw other at h))
      | inl same ↦ elim (Bool-cases (contains "error" g)) [
        | inl error ↦ absurd (refused_call (rw error at rw same at h))
        | inr clear ↦ (
          g,
          refl,
          equals_text-eq _ id same,
          clear,
          result_of-eq-ok mutation _ f (rw clear at rw same at h),
        )
      ]
    ]
check_response-eq-ok mutation id _ f h = absurd (refused_call h)

decoded-eq-ok :
    (mutation : Bool) (id : Text) (d : Decoded) (f : Fields)
    → ◌≡◌ {A = Result Fields}
        (elim d [
          | decoded v ↦ check_response mutation id v
          | malformed ↦ err (protocol_error (some mutation))
          | raised e' ↦ err e'
        ])
        (ok f)
    → (g : Fields) × (d ≡ decoded (Value.dict g))
      × (get "id" g ≡ Value.str id)
      × (contains "error" g ≡ false)
      × (get "result" g ≡ Value.dict f)
decoded-eq-ok mutation id (decoded v) f h =
    let (g, is, same, clear, result) = check_response-eq-ok mutation id v f h in
    (g, ap (λ x. decoded x) is, same, clear, result)
decoded-eq-ok mutation id malformed f h = absurd (refused_call h)
decoded-eq-ok mutation id (raised e) f h = absurd (refused_call h)

finish_call-eq-ok :
    (loads : Text → Decoded) (max_bytes : ℕ) (mutation : Bool) (id : Text) (a : Attempt Text)
    (f : Fields)
    → finish_call loads max_bytes mutation id a ≡ ok f
    → (body : Text) × (a ≡ done body) × IsAnswer loads max_bytes id body f
unfolding finish_call read_response
finish_call-eq-ok loads max_bytes mutation id (failed e) f h = absurd (refused_call h)
finish_call-eq-ok loads max_bytes mutation id (done body) f h =
    let read = take (max_bytes + 1) body in
    elim (Bool-cases (ltb max_bytes (length read))) [
      | inl large ↦ absurd (refused_call (rw large at h))
      | inr small ↦
          let (g, is, same, clear, result) =
            decoded-eq-ok mutation id (loads read) f (rw small at h) in
          (body, refl, (g, ground (arith, small), is, same, clear, result))
    ]

-- A call returns fields only if a response came whose body is within the limit of the configuration
-- and reads as an object with the ID of this request, without an error, and with these fields as its
-- result.
pub call-IsAnswer :
    (loads : Text → Decoded) (transport : Value → Attempt Text) (client : Client) (method : Text)
    (params : Option Fields) (mutation : Bool) (f : Fields)
    → (call loads transport client method params mutation).0 ≡ ok f
    → (body : Text) × (transport (payload (decimal client.next_id) method params) ≡ done body)
      × IsAnswer loads client.config.max_bytes (decimal client.next_id) body f
unfolding call
call-IsAnswer loads transport client [] params mutation f h = absurd (refused_call h)
call-IsAnswer loads transport client (c ∷ method) params mutation f h =
    finish_call-eq-ok loads client.config.max_bytes mutation (decimal client.next_id) _ f h
