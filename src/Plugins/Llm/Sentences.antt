-- ===== src/Plugins/Llm/Sentences.antt =====
-- internal/plugins/base/llm/base.go: no text is lost when it is cut into sentences.
use voce.Prelude.{
  ℕ, ◌≡◌, refl, sym, ap, ◌∙◌, Bool, true, not, ◌||◌, ◌==◌, Option, none, List, [], ◌∷◌, ◌++◌, all,
  length, arith, inl, inr, Bool-cases,
}
use voce.Plugins.Llm.{
  Output, ProviderError, trim_space, parse_rune, parse_sentences, outputs, stream, last_output,
  process_message,
}
use mathlib.Core.List.{append_assoc, append-nil}

abbrev pub concat : List (List ℕ) → List ℕ
concat [] = []
concat (s ∷ ss) = s ++ concat ss

-- All that is said, one output after the other.
abbrev pub spoken : List Output → List ℕ
spoken [] = []
spoken (o ∷ os) = o.sentence ++ spoken os

concat-append : (xs ys : List (List ℕ)) → concat (xs ++ ys) ≡ concat xs ++ concat ys
concat-append [] ys = refl
concat-append (x ∷ xs) ys =
    ap (λ l. x ++ l) (concat-append xs ys) ∙ sym (append_assoc x (concat xs) (concat ys))

spoken-append : (xs ys : List Output) → spoken (xs ++ ys) ≡ spoken xs ++ spoken ys
spoken-append [] ys = refl
spoken-append (x ∷ xs) ys =
    ap (λ l. x.sentence ++ l) (spoken-append xs ys)
    ∙ sym (append_assoc x.sentence (spoken xs) (spoken ys))

all-append :
    (xs ys : List Output)
    → all (λ o. not o.is_final) xs ≡ true
    → all (λ o. not o.is_final) ys ≡ true
    → all (λ o. not o.is_final) (xs ++ ys) ≡ true
all-append [] ys a b = b
all-append (x ∷ xs) ys a b = ground (arith, a, all-append xs ys)

module _ (is_space is_letter_or_digit : ℕ → Bool) where
  parse_rune_lem :
      (char : ℕ) (fragment : List ℕ)
      → concat (parse_rune is_space is_letter_or_digit char fragment).1
          ++ (parse_rune is_space is_letter_or_digit char fragment).0
        ≡ fragment ++ (char ∷ [])
  unfolding parse_rune
  parse_rune_lem char fragment =
      ground
        (arith, append-nil (fragment ++ (char ∷ [])), append-nil ((fragment ++ (char ∷ [])) ++ []))

  parse_sentences_lem :
      (content fragment : List ℕ)
      → concat (parse_sentences is_space is_letter_or_digit content fragment).1
          ++ (parse_sentences is_space is_letter_or_digit content fragment).0
        ≡ fragment ++ content
  unfolding parse_sentences
  parse_sentences_lem [] fragment = sym (append-nil fragment)
  parse_sentences_lem (char ∷ content) fragment =
      let first = parse_rune is_space is_letter_or_digit char fragment in
      let rest = parse_sentences is_space is_letter_or_digit content first.0 in
      ap (λ l. l ++ rest.0) (concat-append first.1 rest.1)
      ∙ append_assoc (concat first.1) (concat rest.1) rest.0
      ∙ ap (λ l. concat first.1 ++ l) (parse_sentences_lem content first.0)
      ∙ sym (append_assoc (concat first.1) first.0 content)
      ∙ ap (λ l. l ++ content) (parse_rune_lem char fragment)
      ∙ append_assoc fragment (char ∷ []) content

  spoken-outputs :
      (ss : List (List ℕ)) → spoken (outputs is_space is_letter_or_digit ss) ≡ concat ss
  spoken-outputs [] = refl
  spoken-outputs (s ∷ ss) = ap (λ l. s ++ l) (spoken-outputs ss)

  stream_lem :
      (chunks : List (List ℕ)) (fragment : List ℕ)
      → spoken (stream is_space is_letter_or_digit chunks fragment).1
          ++ (stream is_space is_letter_or_digit chunks fragment).0
        ≡ fragment ++ concat chunks
  unfolding stream
  stream_lem [] fragment = sym (append-nil fragment)
  stream_lem (chunk ∷ chunks) fragment =
      let first = parse_sentences is_space is_letter_or_digit chunk fragment in
      let rest = stream is_space is_letter_or_digit chunks first.0 in
      let here = outputs is_space is_letter_or_digit first.1 in
      ap (λ l. l ++ rest.0) (spoken-append here rest.1)
      ∙ append_assoc (spoken here) (spoken rest.1) rest.0
      ∙ ap (λ l. spoken here ++ l) (stream_lem chunks first.0)
      ∙ ap (λ l. l ++ (first.0 ++ concat chunks)) (spoken-outputs first.1)
      ∙ sym (append_assoc (concat first.1) first.0 (concat chunks))
      ∙ ap (λ l. l ++ concat chunks) (parse_sentences_lem chunk fragment)
      ∙ append_assoc fragment chunk (concat chunks)

  -- What is sent of a stream without error is, in order, all that was streamed, but for a rest at its
  -- end that is white space alone.
  pub spoken-process_message :
      (failed_message : List ℕ) (chunks : List (List ℕ))
      → (rest : List ℕ) × (spoken
              (process_message is_space is_letter_or_digit failed_message chunks none)
            ++ rest
          ≡ concat chunks)
        × (((length rest == 0) || (length (trim_space is_space is_letter_or_digit rest) == 0))
            ≡ true)
  unfolding process_message last_output
  spoken-process_message failed_message chunks =
      let sent = stream is_space is_letter_or_digit chunks [] in
      let all_sent = stream_lem chunks [] in
      elim (Bool-cases (length (trim_space is_space is_letter_or_digit sent.0) == 0)) [
        | inl e ↦ rw e (
          sent.0,
          ap (λ l. l ++ sent.0) (spoken-append sent.1 _ ∙ append-nil (spoken sent.1)) ∙ all_sent,
          ground (arith, e),
        )
        | inr e ↦ rw e (
          [],
          append-nil _
              ∙ spoken-append sent.1 _
              ∙ ap (λ l. spoken sent.1 ++ l) (append-nil sent.0)
              ∙ all_sent,
          refl,
        )
      ]

  all-outputs :
      (ss : List (List ℕ))
      → all (λ o. not o.is_final) (outputs is_space is_letter_or_digit ss) ≡ true
  all-outputs [] = refl
  all-outputs (s ∷ ss) = all-outputs ss

  all-stream :
      (chunks : List (List ℕ)) (fragment : List ℕ)
      → all (λ o. not o.is_final) (stream is_space is_letter_or_digit chunks fragment).1 ≡ true
  unfolding stream
  all-stream [] fragment = refl
  all-stream (chunk ∷ chunks) fragment =
      let first = parse_sentences is_space is_letter_or_digit chunk fragment in
      all-append (outputs is_space is_letter_or_digit first.1) _ (all-outputs first.1)
        (all-stream chunks first.0)

  -- Whatever is streamed and however the stream ends, the outputs of a message are some that are not
  -- final and then one that is.
  pub process_message_final :
      (failed_message : List ℕ) (chunks : List (List ℕ)) (error : Option ProviderError)
      → (sent : List Output) × (end_output : Output) × (process_message is_space is_letter_or_digit
            failed_message chunks error
          ≡ sent ++ (end_output ∷ []))
        × (all (λ o. not o.is_final) sent ≡ true)
        × (end_output.is_final ≡ true)
  unfolding process_message last_output
  process_message_final failed_message chunks error = (
    (stream is_space is_letter_or_digit chunks []).1,
    last_output is_space is_letter_or_digit failed_message error
        (stream is_space is_letter_or_digit chunks []).0,
    refl,
    all-stream chunks [],
    ground arith,
  )
