-- ===== src/Plugins/Interrupter.antt =====
-- internal/plugins/interrupter/plugin.go: signals where the user starts and ends to speak.
use voce.Prelude.{
  ℕ, ◌+◌, ◌≤◌, ◌≡◌, ◌∙◌, ap, refl, String, Bool, true, false, not, ◌&&◌, if◌then◌else◌, str_eq,
  List, [], ◌∷◌, ◌++◌, arith,
}
use voce.Schema.Properties.{Named, get_boolean}
use voce.Plugins.Sends.{Sends, signal_interrupter, signal_user_speech_start, signal_user_speech_end}

-- OnPayload, from whether the user speaks to whether it does then.
unfoldable pub on_payload : Named → Bool → Bool × List Sends
on_payload payload speaking =
    let final = get_boolean payload.properties "is_final" false in
    let passed : List Sends = Sends.pass_payload payload ∷ [] in
    if not final && not speaking
    then (true, Sends.signal signal_interrupter ∷ Sends.signal signal_user_speech_start ∷ passed)
    else if final
    then (false, Sends.signal signal_user_speech_end ∷ passed)
    else (speaking, passed)

unfoldable pub on_payloads : List Named → Bool → Bool × List Sends
on_payloads [] speaking = (speaking, [])
on_payloads (p ∷ ps) speaking =
    let (now, out) = on_payload p speaking in
    let (later, more) = on_payloads ps now in (later, out ++ more)

-- How often a signal is sent.
unfoldable pub signalled : String → List Sends → ℕ
signalled name [] = 0
signalled name (Sends.signal s ∷ ss) = (if str_eq s name then 1 else 0) + signalled name ss
signalled name (_ ∷ ss) = signalled name ss

-- The payloads that are passed on.
unfoldable pub passed_on : List Sends → List Named
passed_on [] = []
passed_on (Sends.pass_payload p ∷ ss) = p ∷ passed_on ss
passed_on (_ ∷ ss) = passed_on ss

signalled-append :
    (name : String) (xs ys : List Sends)
    → signalled name (xs ++ ys) ≡ signalled name xs + signalled name ys
unfolding signalled
signalled-append name [] ys = omega arith
signalled-append name (Sends.signal s ∷ xs) ys = omega (arith, signalled-append name xs ys)
signalled-append name (Sends.pass_signal s ∷ xs) ys = signalled-append name xs ys
signalled-append name (Sends.pass_payload s ∷ xs) ys = signalled-append name xs ys
signalled-append name (Sends.chunk s f ∷ xs) ys = signalled-append name xs ys

passed_on-append : (xs ys : List Sends) → passed_on (xs ++ ys) ≡ passed_on xs ++ passed_on ys
unfolding passed_on
passed_on-append [] ys = refl
passed_on-append (Sends.signal s ∷ xs) ys = passed_on-append xs ys
passed_on-append (Sends.pass_signal s ∷ xs) ys = passed_on-append xs ys
passed_on-append (Sends.pass_payload s ∷ xs) ys = ap (◌∷◌ s) (passed_on-append xs ys)
passed_on-append (Sends.chunk s f ∷ xs) ys = passed_on-append xs ys

abbrev one : Bool → ℕ
one b = if b then 1 else 0

on_payload_counts :
    (p : Named) (speaking : Bool)
    → (signalled signal_interrupter (on_payload p speaking).1
        ≡ signalled signal_user_speech_start (on_payload p speaking).1)
      × (signalled signal_interrupter (on_payload p speaking).1 + one speaking
          ≤ signalled signal_user_speech_end (on_payload p speaking).1
            + one (on_payload p speaking).0)
      × (passed_on (on_payload p speaking).1 ≡ p ∷ [])
unfolding on_payload signalled passed_on
on_payload_counts p speaking = ground arith

-- Over any payloads, the agent is interrupted once for each start of the user's speech and at most once
-- more than the speech ends, not counting a speech under way before, and each payload is passed on, in
-- order.
pub on_payloads_lem :
    (ps : List Named) (speaking : Bool)
    → (signalled signal_interrupter (on_payloads ps speaking).1
        ≡ signalled signal_user_speech_start (on_payloads ps speaking).1)
      × (signalled signal_interrupter (on_payloads ps speaking).1 + (if speaking then 1 else 0)
          ≤ signalled signal_user_speech_end (on_payloads ps speaking).1
            + (if (on_payloads ps speaking).0 then 1 else 0))
      × (passed_on (on_payloads ps speaking).1 ≡ ps)
unfolding on_payloads signalled passed_on
on_payloads_lem [] speaking = (refl, omega arith, refl)
on_payloads_lem (p ∷ ps) speaking =
    let now = (on_payload p speaking).0 in
    let out = (on_payload p speaking).1 in
    let more = (on_payloads ps now).1 in
    let (starts, ends, here) = on_payload_counts p speaking in
    let (starts', ends', there) = on_payloads_lem ps now in
    (
      omega (
        arith,
        signalled-append signal_interrupter out more,
        signalled-append signal_user_speech_start out more,
        starts,
        starts',
      ),
      omega (
        arith,
        signalled-append signal_interrupter out more,
        signalled-append signal_user_speech_end out more,
        ends,
        ends',
      ),
      passed_on-append out more ∙ ap (λ l. l ++ passed_on more) here ∙ ap (◌∷◌ p) there,
    )
