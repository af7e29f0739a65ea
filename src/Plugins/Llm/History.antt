-- ===== src/Plugins/Llm/History.antt =====
-- internal/plugins/base/llm/session.go: the history of a conversation.
use voce.Prelude.{
  ℕ, ◌+◌, ◌-◌, ◌≤◌, ◌≡◌, refl, sym, ap, ap₂, subst⁻¹, ◌∙◌, zero, suc, ltb, List, [], ◌∷◌, ◌++◌,
  drop, length, arith, length-append, length-drop, inl, inr, Bool-cases,
}
use voce.Plugins.Llm.{Message, CacheSession, new_cache_session, add_message}
use mathlib.Core.List.{append_assoc, append-nil}

-- The last `n` of a list.
abbrev pub last : ℕ → List Message → List Message
last n ms = drop (length ms - n) ms

-- All that is added, one call after the other.
unfoldable pub add_all : List (List Message) → CacheSession → CacheSession
add_all [] s = s
add_all (ms ∷ mss) s = add_all mss (add_message ms s)

abbrev pub joined : List (List Message) → List Message
joined [] = []
joined (ms ∷ mss) = ms ++ joined mss

drop_none : (ms : List Message) (n : ℕ) → n ≡ 0 → drop n ms ≡ ms
drop_none ms n e = ap (λ k. drop k ms) e

drop-append-le :
    (n : ℕ) (xs ys : List Message) → n ≤ length xs → drop n (xs ++ ys) ≡ drop n xs ++ ys
drop-append-le zero xs ys h = refl
drop-append-le (suc n) [] ys h = absurd (omega (arith, h))
drop-append-le (suc n) (x ∷ xs) ys h = drop-append-le n xs ys (omega (arith, h))

drop_nil : (n : ℕ) → drop {A = Message} n [] ≡ []
drop_nil zero = refl
drop_nil (suc n) = refl

drop-drop : (m n : ℕ) (xs : List Message) → drop m (drop n xs) ≡ drop (n + m) xs
drop-drop m zero xs = let e : m ≡ zero + m = omega arith in ap (λ k. drop k xs) e
drop-drop m (suc n) [] = drop_nil m ∙ sym (drop_nil (suc n + m))
drop-drop m (suc n) (x ∷ xs) =
    let e : suc (n + m) ≡ suc n + m = omega arith in drop-drop m n xs ∙ ap (λ k. drop k (x ∷ xs)) e

last-append-last : (n : ℕ) (xs ys : List Message) → last n (last n xs ++ ys) ≡ last n (xs ++ ys)
last-append-last n xs ys =
    let d = length xs - n in
    let size : length (drop d xs ++ ys) ≡ (length xs - d) + length ys =
      omega (arith, length-append (drop d xs) ys, length-drop d xs) in
    let move : drop d xs ++ ys ≡ drop d (xs ++ ys) = sym (drop-append-le d xs ys (omega arith)) in
    ap (λ l. drop (length (drop d xs ++ ys) - n) l) move
    ∙ drop-drop (length (drop d xs ++ ys) - n) d (xs ++ ys)
    ∙ ap (λ k. drop k (xs ++ ys)) (omega (arith, size, length-append xs ys))

add_message_lem :
    (ms : List Message) (s : CacheSession)
    → ((add_message ms s).messages ≡ last s.cap_size (s.messages ++ ms))
      × ((add_message ms s).cap_size ≡ s.cap_size)
unfolding add_message
add_message_lem ms s = elim (Bool-cases (ltb s.cap_size (length (s.messages ++ ms)))) [
  | inl e ↦ ground (arith, e)
  | inr e ↦ (rw e (sym (drop_none (s.messages ++ ms) _ (ground (arith, e)))), refl)
]

add_all_lem :
    (mss : List (List Message)) (s : CacheSession)
    → length s.messages ≤ s.cap_size
    → (add_all mss s).messages ≡ last s.cap_size (s.messages ++ joined mss)
unfolding add_all
add_all_lem [] s h = sym (
    drop_none (s.messages ++ []) _ (omega (arith, h, length-append s.messages []))
    ∙ append-nil s.messages)
add_all_lem (ms ∷ mss) s h =
    let (now, same) = add_message_lem ms s in
    let size : length (add_message ms s).messages ≤ (add_message ms s).cap_size =
      subst⁻¹ (λ l. length l ≤ (add_message ms s).cap_size) now
        (omega
          (arith, same, length-drop (length (s.messages ++ ms) - s.cap_size) (s.messages ++ ms))) in
    add_all_lem mss (add_message ms s) size
    ∙ ap₂ (λ n l. last n (l ++ joined mss)) same now
    ∙ last-append-last s.cap_size (s.messages ++ ms) (joined mss)
    ∙ ap (λ l. last s.cap_size l) (append_assoc s.messages ms (joined mss))

-- After any calls of AddMessage on a new session, it has the last messages of all that were added, as
-- many as its limit, in order.
pub add_all-new_cache_session :
    (limit : ℕ) (mss : List (List Message))
    → (add_all mss (new_cache_session limit)).messages ≡ last limit (joined mss)
unfolding new_cache_session
add_all-new_cache_session limit mss = add_all_lem mss (new_cache_session limit) (omega arith)
