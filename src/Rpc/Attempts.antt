-- ===== src/Rpc/Attempts.antt =====
-- The requests that `_PersistentDigestHandler._open` of src/myt_machine/rpc.py sends for one call.
use myt_machine.Base.{
  ◌≡◌, refl, Option, none, some, [], ◌∷◌, Text, ◌==◌, ℕ_eq, nat_eq_iff, ltb, length, take, ◌+◌,
  Bool-cases, Option-cases, inl, inr, ◌⊎◌,
}
use myt_machine.Rpc.{Net}
use myt_machine.Rpc.Digest.{
  Attempt, done, failed, Challenge, HttpResponse, challenge, authorization, Exchange,
  second_request, max_auth_challenge_bytes, answer_challenge, open_request,
}

-- One request without credentials; or, after a challenge that can be answered, a second one with the
-- answer.
abbrev pub IsExchange :
    Net → Option (Text × Text) → Text → Text → Attempt HttpResponse → Exchange → Type 0
IsExchange net credentials selector cnonce first e =
    (e.sent ≡ none ∷ [])
    ⊎ ((r : HttpResponse) × (c : Challenge) × (header : Text) × (first ≡ done r)
        × (r.status ≡ 401)
        × (challenge net r.challenges ≡ some c)
        × (authorization net credentials selector cnonce c ≡ done header)
        × (e.sent ≡ none ∷ some header ∷ []))

Attempt-cases :
    (a : Attempt Text)
    → ((t : Text) × (a ≡ done t))
      ⊎ ((second : Attempt HttpResponse) → (second_request second a).sent ≡ none ∷ [])
Attempt-cases (done t) = inl (t, refl)
Attempt-cases (failed e) = inr (λ second. refl)

answer_challenge-IsExchange :
    (net : Net) (credentials : Option (Text × Text)) (selector cnonce : Text) (r : HttpResponse)
    (second : Attempt HttpResponse)
    → r.status ≡ 401
    → IsExchange net credentials selector cnonce
        (done r)
        (answer_challenge net credentials selector cnonce r second)
unfolding answer_challenge
answer_challenge-IsExchange net credentials selector cnonce r second status =
    elim (Bool-cases
      (ltb max_auth_challenge_bytes (length (take (max_auth_challenge_bytes + 1) r.body)))) [
        | inl large ↦ rw large (inl refl)
        | inr small ↦ rw small (elim (Option-cases (challenge net r.challenges)) [
          | inl nothing ↦ rw nothing (inl refl)
          | inr (c, found) ↦
              rw found (elim (Attempt-cases (authorization net credentials selector cnonce c)) [
                | inl (header, made) ↦ rw made (inr (r, c, header, refl, status, found, made, refl))
                | inr refused ↦ inl (refused second)
              ])
        ])
      ]

-- For one call at most two requests are sent. The first has no `Authorization` header; the second is
-- sent only to a response of status 401 with a challenge that can be answered, and then with the
-- answer to this challenge.
pub open_request-IsExchange :
    (net : Net) (credentials : Option (Text × Text)) (selector cnonce : Text)
    (first second : Attempt HttpResponse)
    → IsExchange net credentials selector cnonce first
        (open_request net credentials selector cnonce first second)
unfolding open_request
open_request-IsExchange net credentials selector cnonce (failed e) second = inl refl
open_request-IsExchange net none selector cnonce (done r) second = inl refl
open_request-IsExchange net (some credentials) selector cnonce (done r) second =
    elim (Bool-cases (r.status == 401)) [
      | inl asked ↦ rw asked (
          answer_challenge-IsExchange net (some credentials) selector cnonce r second
            ((nat_eq_iff r.status 401).0 asked))
      | inr other ↦ rw other (inl refl)
    ]
