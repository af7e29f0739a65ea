-- ===== src/Plugins/Tts/Frames.antt =====
-- internal/plugins/base/tts/base.go: the frames hold all of the speech, and all but the last are whole.
use voce.Prelude.{
  ℕ, zero, suc, ◌-◌, ◌≤◌, ◌<◌, ◌≡◌, refl, sym, ap, ap₂, ◌∙◌, Bool, true, false, not, ◌&&◌, ◌||◌,
  ◌==◌, ltb, if◌then◌else◌, List, [], ◌∷◌, ◌++◌, all, length, take, drop, min, arith, length-append,
  length-take, length-drop, inl, inr, Bool-cases,
}
use voce.Plugins.Tts.{AudioStreamer, Sends, turn, pump, audios, write, new_audio_streamer}
use mathlib.Core.List.{append_assoc, append-nil}

abbrev pub concat : List (List ℕ) → List ℕ
concat [] = []
concat (s ∷ ss) = s ++ concat ss

take-drop : (n : ℕ) (xs : List ℕ) → take n xs ++ drop n xs ≡ xs
take-drop zero xs = refl
take-drop (suc n) [] = refl
take-drop (suc n) (x ∷ xs) = ap (◌∷◌ x) (take-drop n xs)

nothing_held : (held : List ℕ) → length held ≡ 0 → held ≡ []
nothing_held [] h = refl
nothing_held (x ∷ held) h = absurd (omega (arith, h))

concat-append : (xs ys : List (List ℕ)) → concat (xs ++ ys) ≡ concat xs ++ concat ys
concat-append [] ys = refl
concat-append (x ∷ xs) ys =
    ap (λ l. x ++ l) (concat-append xs ys) ∙ sym (append_assoc x (concat xs) (concat ys))

all-append :
    (size : ℕ) (xs ys : List (List ℕ))
    → all (λ f. length f == size) xs ≡ true
    → all (λ f. length f == size) ys ≡ true
    → all (λ f. length f == size) (xs ++ ys) ≡ true
all-append size [] ys a b = b
all-append size (x ∷ xs) ys a b = ground (arith, a, all-append size xs ys)

concat-turn :
    (size : ℕ) (held bytes : List ℕ)
    → concat (turn size held bytes).2 ++ ((turn size held bytes).0 ++ (turn size held bytes).1)
      ≡ held ++ bytes
unfolding turn
concat-turn size held bytes =
    let read = min (size - length held) (length bytes) in
    let joined : (held ++ take read bytes) ++ drop read bytes ≡ held ++ bytes =
      append_assoc held (take read bytes) (drop read bytes)
      ∙ ap (λ l. held ++ l) (take-drop read bytes) in
    elim (Bool-cases (ltb (length bytes) size || not (length held == 0))) [
      | inl e ↦ elim (Bool-cases (length (held ++ take read bytes) == size)) [
        | inl g ↦
            rw (e, g)
              (ap (λ l. l ++ drop read bytes) (append-nil (held ++ take read bytes)) ∙ joined)
        | inr g ↦ rw (e, g) joined
      ]
      | inr e ↦ rw e (
          ap (λ l. l ++ (held ++ drop size bytes)) (append-nil (take size bytes))
          ∙ ap (λ l. take size bytes ++ (l ++ drop size bytes))
              (nothing_held held (ground (arith, e)))
          ∙ take-drop size bytes
          ∙ ap (λ l. l ++ bytes) (sym (nothing_held held (ground (arith, e)))))
    ]

turn_fits :
    (size : ℕ) (held bytes : List ℕ)
    → length held < size
    → 0 < length bytes
    → (length (turn size held bytes).0 < size)
      × (length (turn size held bytes).1 < length bytes)
      × (all (λ f. length f == size) (turn size held bytes).2 ≡ true)
unfolding turn
turn_fits size held bytes h some_bytes =
    let read = min (size - length held) (length bytes) in
    let filled = length-append held (take read bytes) in
    let taken = length-take read bytes in
    let left = length-drop read bytes in
    elim (Bool-cases (ltb (length bytes) size || not (length held == 0))) [
      | inl e ↦ elim (Bool-cases (length (held ++ take read bytes) == size)) [
        | inl g ↦
            rw (e, g) (omega (arith, h), omega (arith, left, h, some_bytes), ground (arith, g))
        | inr g ↦
            rw (e, g) (ground (arith, filled, taken, g), omega (arith, left, h, some_bytes), refl)
      ]
      | inr e ↦ rw e (
        h,
        omega (arith, length-drop size bytes, h, some_bytes),
        ground (arith, e, length-take size bytes),
      )
    ]

concat-pump :
    (turns size : ℕ) (held bytes : List ℕ)
    → concat (pump turns size held bytes).2
        ++ ((pump turns size held bytes).0 ++ (pump turns size held bytes).1)
      ≡ held ++ bytes
unfolding pump
concat-pump zero size held bytes = refl
concat-pump (suc turns) size held bytes = elim (Bool-cases (length bytes == 0)) [
  | inl e ↦ rw e refl
  | inr e ↦
      let first = turn size held bytes in
      let rest = pump turns size first.0 first.1 in
      rw e (
        ap (λ l. l ++ (rest.0 ++ rest.1)) (concat-append first.2 rest.2)
        ∙ append_assoc (concat first.2) (concat rest.2) (rest.0 ++ rest.1)
        ∙ ap (λ l. concat first.2 ++ l) (concat-pump turns size first.0 first.1)
        ∙ concat-turn size held bytes)
]

pump_fits :
    (turns size : ℕ) (held bytes : List ℕ)
    → length held < size
    → length bytes ≤ turns
    → (length (pump turns size held bytes).0 < size)
      × (length (pump turns size held bytes).1 ≡ 0)
      × (all (λ f. length f == size) (pump turns size held bytes).2 ≡ true)
unfolding pump
pump_fits zero size held bytes h enough = (h, omega (arith, enough), refl)
pump_fits (suc turns) size held bytes h enough = elim (Bool-cases (length bytes == 0)) [
  | inl e ↦ rw e (h, ground (arith, e), refl)
  | inr e ↦
      let (fits, less, whole) = turn_fits size held bytes h (ground (arith, e)) in
      let first = turn size held bytes in
      let (fits', none_left, whole') =
        pump_fits turns size first.0 first.1 fits (omega (arith, less, enough)) in
      rw e (fits', none_left, all-append size first.2 _ whole whole')
]

-- The frames of audio that are sent.
abbrev pub frames : List Sends → List (List ℕ)
frames [] = []
frames (Sends.audio f ∷ ss) = f ∷ frames ss
frames (_ ∷ ss) = frames ss

frames-append : (xs ys : List Sends) → frames (xs ++ ys) ≡ frames xs ++ frames ys
frames-append [] ys = refl
frames-append (Sends.audio f ∷ xs) ys = ap (◌∷◌ f) (frames-append xs ys)
frames-append (Sends.speech_start ∷ xs) ys = frames-append xs ys
frames-append (Sends.speech_end ∷ xs) ys = frames-append xs ys

frames-audios : (fs : List (List ℕ)) → frames (audios fs) ≡ fs
frames-audios [] = refl
frames-audios (f ∷ fs) = ap (◌∷◌ f) (frames-audios fs)

-- The start signal is no frame.
frames-start :
    (b : Bool) (ss : List Sends)
    → frames ((if b then Sends.speech_start ∷ [] else []) ++ ss) ≡ frames ss
frames-start true ss = refl
frames-start false ss = refl

-- What is held goes out before the end signal.
concat-rest :
    (held : List ℕ)
    → concat (
        frames
          ((if length held == 0 then [] else Sends.audio held ∷ []) ++ (Sends.speech_end ∷ [])))
      ≡ held
concat-rest held = elim (Bool-cases (length held == 0)) [
  | inl e ↦ rw e (sym (nothing_held held (ground (arith, e))))
  | inr e ↦ rw e (append-nil held)
]

-- A piece of speech that is not the last, in a context that lives and with less than a frame held before: the frames that are sent, with what
-- is held for the next, are what was held and the piece, in order, and each frame is whole; less than
-- a frame is held. As many turns of the loop as the piece has bytes are
-- enough.
pub write_piece :
    (turns : ℕ) (bytes : List ℕ) (s : AudioStreamer)
    → length s.held < s.buffer_size
    → length bytes ≤ turns
    → (concat (frames (write true turns true bytes false s).1)
          ++ (write true turns true bytes false s).0.held
        ≡ s.held ++ bytes)
      × (all (λ f. length f == s.buffer_size) (frames (write true turns true bytes false s).1)
          ≡ true)
      × (length (write true turns true bytes false s).0.held < s.buffer_size)
unfolding write
write_piece turns bytes s h enough =
    let (fits, none_left, whole) = pump_fits turns s.buffer_size s.held bytes h enough in
    let out = pump turns s.buffer_size s.held bytes in
    let sent : frames
          ((if not s.started && true then Sends.speech_start ∷ [] else []) ++ audios out.2)
        ≡ out.2 =
      frames-start (not s.started && true) (audios out.2) ∙ frames-audios out.2 in
    rw sent (
      sym (
            ap (λ l. concat out.2 ++ l)
              (ap (λ l. out.0 ++ l) (nothing_held out.1 none_left) ∙ append-nil out.0))
          ∙ concat-pump turns s.buffer_size s.held bytes,
      whole,
      fits,
    )

-- The last piece, in a context that lives and with less than a frame held before: all that was held and the piece are sent, in order, nothing
-- is held, and the end of the speech is signalled.
pub write_last :
    (turns : ℕ) (bytes : List ℕ) (s : AudioStreamer)
    → length s.held < s.buffer_size
    → length bytes ≤ turns
    → (concat (frames (write true turns true bytes true s).1) ≡ s.held ++ bytes)
      × ((write true turns true bytes true s).0 ≡ new_audio_streamer s.buffer_size)
unfolding write new_audio_streamer
write_last turns bytes s h enough =
    let (fits, none_left, whole) = pump_fits turns s.buffer_size s.held bytes h enough in
    let out = pump turns s.buffer_size s.held bytes in
    let rest : List Sends =
      (if length out.0 == 0 then [] else Sends.audio out.0 ∷ []) ++ (Sends.speech_end ∷ []) in
    (
      ap concat (
            frames-start (not s.started && true) (audios out.2 ++ rest)
            ∙ frames-append (audios out.2) rest)
          ∙ concat-append (frames (audios out.2)) (frames rest)
          ∙ ap₂ (λ a b. concat a ++ b) (frames-audios out.2) (concat-rest out.0)
          ∙ sym (
              ap (λ l. concat out.2 ++ l)
                (ap (λ l. out.0 ++ l) (nothing_held out.1 none_left) ∙ append-nil out.0))
          ∙ concat-pump turns s.buffer_size s.held bytes,
      refl,
    )

-- The pieces of a speech and its last one, each with as many turns as it has bytes.
unfoldable pub say : List (List ℕ) → List ℕ → AudioStreamer → List Sends
say [] end_piece s = (write true (length end_piece) true end_piece true s).1
say (p ∷ ps) end_piece s =
    let (s', sent) = write true (length p) true p false s in sent ++ say ps end_piece s'

size-write :
    (turns : ℕ) (bytes : List ℕ) (s : AudioStreamer)
    → (write true turns true bytes false s).0.buffer_size ≡ s.buffer_size
unfolding write
size-write turns bytes s = refl

-- In a context that lives and with less than a frame held before, the frames of a speech are, in order,
-- what was held and all its pieces, however the speech is cut into pieces.
pub say_lem :
    (ps : List (List ℕ)) (end_piece : List ℕ) (s : AudioStreamer)
    → length s.held < s.buffer_size
    → concat (frames (say ps end_piece s)) ≡ s.held ++ (concat ps ++ end_piece)
unfolding say
say_lem [] end_piece s h = (write_last (length end_piece) end_piece s h (omega arith)).0
say_lem (p ∷ ps) end_piece s h =
    let (all_sent, whole, fits) = write_piece (length p) p s h (omega arith) in
    let out = write true (length p) true p false s in
    ap concat (frames-append out.1 (say ps end_piece out.0))
    ∙ concat-append (frames out.1) (frames (say ps end_piece out.0))
    ∙ ap (λ l. concat (frames out.1) ++ l)
        (say_lem ps end_piece out.0 (omega (arith, fits, size-write (length p) p s)))
    ∙ sym (append_assoc (concat (frames out.1)) out.0.held (concat ps ++ end_piece))
    ∙ ap (λ l. l ++ (concat ps ++ end_piece)) all_sent
    ∙ append_assoc s.held p (concat ps ++ end_piece)
    ∙ ap (λ l. s.held ++ l) (sym (append_assoc p (concat ps) end_piece))
