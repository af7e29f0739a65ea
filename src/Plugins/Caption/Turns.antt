-- ===== src/Plugins/Caption/Turns.antt =====
-- internal/plugins/caption/plugin.go: what is held back while the user speaks.
use voce.Prelude.{
  ℕ, ◌≡◌, ◌≢◌, refl, Bool, true, false, ◌||◌, ◌==◌, if◌then◌else◌, List, [], ◌∷◌, ◌++◌, length,
  arith, any, list-cases, inl, inr,
}
use voce.Plugins.Caption.{
  Role, Caption, Captions, new_captions, send_caption, flush_pending, on_asr, on_chunk,
}
use mathlib.Core.List.{append_assoc, append-nil}

abbrev pub Chunks : Type 0
Chunks = List (List ℕ × Bool)

abbrev pub said : Chunks → List ℕ
said [] = []
said ((t, _) ∷ cs) = t ++ said cs

module _ (marshals : Caption → Bool) where
  unfoldable pub on_chunks : Chunks → Captions → Captions × List Caption
  on_chunks [] e = (e, [])
  on_chunks ((t, final) ∷ cs) e =
      let (e', out) = on_chunk marshals t final e in
      let (e'', more) = on_chunks cs e' in (e'', out ++ more)

  held_back :
      (cs : Chunks) (text : List ℕ) (pending : Bool)
      → on_chunks cs
          (record { builder = text; waiting_user_final = true; pending_assistant_final = pending })
        ≡ (
          record {
            builder = text ++ said cs;
            waiting_user_final = true;
            pending_assistant_final = pending || any (λ c. c.1) cs;
          },
          [],
        )
  unfolding on_chunks on_chunk
  held_back [] text pending = ground (arith, append-nil text)
  held_back ((t, final) ∷ cs) text pending =
      ground (arith, held_back cs (text ++ t) (pending || final), append_assoc text t (said cs))

  -- While the user has not finished, chunks of the agent's speech send no caption, whatever text and
  -- mark were held back before; the user's last words then send theirs and, where the agent said
  -- something, one caption of all that was held back and said, in order, which is final if there was
  -- a mark or one of the chunks was final.
  pub on_asr-on_chunks :
      (cs : Chunks) (words text : List ℕ) (pending : Bool)
      → (let held : Captions = record {
        builder = text;
        waiting_user_final = true;
        pending_assistant_final = pending;
      } in
          ((on_chunks cs held).1 ≡ [])
          × ((on_asr marshals words true (on_chunks cs held).0).1
              ≡ send_caption marshals (record { text = words; role = Role.user; is_final = true })
                ++ (if length (text ++ said cs) == 0
                    then []
                    else send_caption marshals (record {
                      text = text ++ said cs;
                      role = Role.assistant;
                      is_final = pending || any (λ c. c.1) cs;
                    }))))
  unfolding on_asr flush_pending
  on_asr-on_chunks cs words text pending = rw (held_back cs text pending) (refl, ground arith)

  -- A final chunk without text that comes while the user speaks leaves its mark behind: after the
  -- user's last words, the first words that the agent says while the user speaks again are shown as
  -- final, although no chunk of them is, whatever the texts, as long as those words are not empty.
  pub stale_final :
      (words more : List ℕ) (sentence : List ℕ)
      → sentence ≢ []
      → (let first = (on_chunk marshals [] true (on_asr marshals words false new_captions).0).0 in
          let second = (on_asr marshals more false (on_asr marshals words true first).0).0 in
          (on_asr marshals more true (on_chunk marshals sentence false second).0).1)
        ≡ send_caption marshals (record { text = more; role = Role.user; is_final = true })
          ++ send_caption marshals
              (record { text = sentence; role = Role.assistant; is_final = true })
  unfolding on_asr on_chunk flush_pending
  stale_final words more sentence some_words = elim (list-cases sentence) [
    | inl e ↦ absurd (some_words e)
    | inr (x, xs, e) ↦ ground (arith, e)
  ]
