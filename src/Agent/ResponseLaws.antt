-- ===== src/Agent/ResponseLaws.antt =====
-- What the agent keeps of an answer (internal/agent/rpc_response.go).
use vibemonitor.Prelude.{
  ℕ, zero, suc, ◌≤◌, ◌<◌, ◌≡◌, ◌≢◌, ◌⊎◌, Bool, true, refl, ap, sym, false, List, [], ◌∷◌, Option,
  none, some, ltb, ◌==◌, length, take, arith, Bool-cases, inl, inr, ==_iff,
}
use mathlib.Core.Path.{subst}
use vibemonitor.Agent.Response.{
  max_rpc_response_bytes, max_rpc_error_bytes, status_ok, Bytes, RpcError, Response, Answer,
  bad_answer, good_answer, accept_decoded, accept_response, read_rpc_response,
}
use vibemonitor.Agent.Response.Failure.{unread, bad_status, too_large, undecodable, rpc_failed}
use vibemonitor.Agent.Response.Answer.{refused, answered}

length-take-le : {A : Type 0} (n : ℕ) (xs : List A) → length (take n xs) ≤ n
length-take-le zero xs = omega arith
length-take-le (suc n) [] = omega arith
length-take-le (suc n) (x ∷ xs) = omega (arith, length-take-le n xs)

whole_if_short :
    {A : Type 0} (n : ℕ) (xs : List A)
    → length (take (suc n) xs) ≤ n
    → (take (suc n) xs ≡ xs) × (length xs ≤ n)
whole_if_short zero [] h = (refl, omega arith)
whole_if_short zero (x ∷ xs) h = absurd (omega (arith, h))
whole_if_short (suc n) [] h = (refl, omega arith)
whole_if_short (suc n) (x ∷ xs) h =
    let (same, short) = whole_if_short n xs (omega (arith, h)) in
    (ap (λ l. x ∷ l) same, omega (arith, short))

not_longer : (a b : ℕ) → ltb a b ≡ false → b ≤ a
not_longer a b h = ground (arith, h)

differs : {b : Bool} → b ≡ false → b ≢ true
differs e e' = cc

not_ltb : (a b : ℕ) → b ≤ a → ltb a b ≡ false
not_ltb a b h = ground (arith, h)

ltb_lt : (a b : ℕ) → ltb a b ≡ true → a < b
ltb_lt a b h = ground (arith, h)

take_all : {A : Type 0} (n : ℕ) (xs : List A) → length xs ≤ n → take n xs ≡ xs
take_all zero [] h = refl
take_all zero (x ∷ xs) h = absurd (omega (arith, h))
take_all (suc n) [] h = refl
take_all (suc n) (x ∷ xs) h = ap (λ l. x ∷ l) (take_all n xs (omega (arith, h)))

take-take : {A : Type 0} (n : ℕ) (xs : List A) → take n (take (suc n) xs) ≡ take n xs
take-take zero xs = refl
take-take (suc n) [] = refl
take-take (suc n) (x ∷ xs) = ap (λ l. x ∷ l) (take-take n xs)

-- One element beyond the limit shows that the whole is longer.
length-take-whole : {A : Type 0} (n : ℕ) (xs : List A) → length (take n xs) ≤ length xs
length-take-whole zero xs = omega arith
length-take-whole (suc n) [] = omega arith
length-take-whole (suc n) (x ∷ xs) = omega (arith, length-take-whole n xs)

longer_whole :
    {A : Type 0} (n : ℕ) (xs : List A)
    → ltb n (length (take (suc n) xs)) ≡ true
    → ltb n (length xs) ≡ true
longer_whole n xs h = ground (arith, h, length-take-whole (suc n) xs)

module _ {R : Type 0} (decode : Bytes → Bytes ⊎ Response R) where
  -- What an answer says of the body and the status that it stands for, and what an error says.
  abbrev pub Justified : ℕ → Bytes → Answer R → Type 0
  Justified status whole (answered r) =
      (status ≡ status_ok)
      × (length whole ≤ max_rpc_response_bytes)
      × (decode whole ≡ inr r)
      × (r.error ≡ none)
  Justified status whole (refused unread) = ⊥
  Justified status whole (refused (bad_status shown body truncated)) =
      (status ≢ status_ok)
      × (shown ≡ status)
      × (body ≡ take max_rpc_error_bytes whole)
      × (length body ≤ max_rpc_error_bytes)
      × (truncated ≡ ltb max_rpc_error_bytes (length whole))
  Justified status whole (refused too_large) =
      (status ≡ status_ok) × (max_rpc_response_bytes < length whole)
  Justified status whole (refused (undecodable text)) =
      (status ≡ status_ok) × (length whole ≤ max_rpc_response_bytes) × (decode whole ≡ inl text)
  Justified status whole (refused (rpc_failed code message truncated)) =
      (status ≡ status_ok)
      × (length whole ≤ max_rpc_response_bytes)
      × ((r : Response R) × (e : RpcError) × (decode whole ≡ inr r)
          × (r.error ≡ some e)
          × (code ≡ e.code)
          × (message ≡ take max_rpc_error_bytes e.message)
          × (length message ≤ max_rpc_error_bytes)
          × (truncated ≡ ltb max_rpc_error_bytes (length e.message)))

  bad_answer-Justified :
      (status : ℕ) (whole : Bytes)
      → status ≢ status_ok
      → Justified status whole (bad_answer decode status (take (suc max_rpc_error_bytes) whole))
  unfolding bad_answer
  bad_answer-Justified status whole bad =
      elim (Bool-cases (ltb max_rpc_error_bytes (length (take (suc max_rpc_error_bytes) whole)))) [
        | inl long ↦ rw long (
          bad,
          refl,
          take-take max_rpc_error_bytes whole,
          length-take-le max_rpc_error_bytes (take (suc max_rpc_error_bytes) whole),
          sym (longer_whole max_rpc_error_bytes whole long),
        )
        | inr short ↦
            let (same, fits) = whole_if_short max_rpc_error_bytes whole (not_longer _ _ short) in
            rw (short, same)
              (
                bad,
                refl,
                sym (take_all max_rpc_error_bytes whole fits),
                fits,
                sym (not_ltb max_rpc_error_bytes (length whole) fits),
              )
      ]

  accept_response-Justified :
      (whole : Bytes) (r : Response R) (e : Option RpcError)
      → length whole ≤ max_rpc_response_bytes
      → decode whole ≡ inr r
      → r.error ≡ e
      → Justified status_ok whole (accept_response decode r e)
  unfolding accept_response
  accept_response-Justified whole r none fits decoded same = (refl, fits, decoded, same)
  accept_response-Justified whole r (some e) fits decoded same =
      elim (Bool-cases (ltb max_rpc_error_bytes (length e.message))) [
        | inl long ↦ rw long (
          refl,
          fits,
          (r, e, decoded, same, refl, refl, length-take-le max_rpc_error_bytes e.message, sym long),
        )
        | inr short ↦
            let few = not_longer _ _ short in
            rw short (
              refl,
              fits,
              (
                r,
                e,
                decoded,
                same,
                refl,
                sym (take_all max_rpc_error_bytes e.message few),
                few,
                sym short,
              ),
            )
      ]

  accept_decoded-Justified :
      (whole : Bytes) (found : Bytes ⊎ Response R)
      → length whole ≤ max_rpc_response_bytes
      → decode whole ≡ found
      → Justified status_ok whole (accept_decoded decode found)
  unfolding accept_decoded
  accept_decoded-Justified whole (inl text) fits decoded = (refl, fits, decoded)
  accept_decoded-Justified whole (inr r) fits decoded =
      accept_response-Justified whole r r.error fits decoded refl

  good_answer-Justified :
      (whole : Bytes)
      → Justified status_ok whole (good_answer decode (take (suc max_rpc_response_bytes) whole))
  unfolding good_answer
  good_answer-Justified whole =
      elim (Bool-cases
        (ltb max_rpc_response_bytes (length (take (suc max_rpc_response_bytes) whole)))) [
          | inl long ↦ rw long (refl, ltb_lt _ _ (longer_whole max_rpc_response_bytes whole long))
          | inr short ↦
              let (same, fits) =
                whole_if_short max_rpc_response_bytes whole (not_longer _ _ short) in
              rw (short, same) (accept_decoded-Justified whole (decode whole) fits refl)
        ]

  -- What the agent takes for an answer is a whole body of at most 1 MiB that came with status 200,
  -- decoded, without an error. If the body was read, an error is one of four. For another status it
  -- repeats the first 4 KiB of the body, and says whether there were more. A body above 1 MiB is
  -- refused. A body that does not decode gives the decoder's error, for the whole body. And an error
  -- of the server is given with its code and the first 4 KiB of its message.
  pub read_rpc_response-Justified :
      (status : ℕ) (whole : Bytes)
      → Justified status whole (read_rpc_response decode status (some whole))
  unfolding read_rpc_response
  read_rpc_response-Justified status whole = elim (Bool-cases (status == status_ok)) [
    | inl ok ↦ rw ok (
        subst
          (λ c. Justified c whole (good_answer decode (take (suc max_rpc_response_bytes) whole)))
          (sym ((==_iff status status_ok).0 ok)) (good_answer-Justified whole))
    | inr bad ↦
        rw bad
          (bad_answer-Justified status whole (λ e. differs bad ((==_iff status status_ok).1 e)))
  ]
