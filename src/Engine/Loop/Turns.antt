-- ===== src/Engine/Loop/Turns.antt =====
-- internal/engine/node_loop.go: what a turn of the loop does first, and that it loses no counted value.
use voce.Prelude.{
  ℕ, suc, ◌+◌, ◌≡◌, refl, Bool, true, false, some, List, [], ◌∷◌, ◌++◌, occurs, ◌==◌, if◌then◌else◌,
  arith,
}
use voce.Engine.Loop.{
  Kind, LoopNode, Act, Pick, pick_control, pick_signal, pick_payload, pick_audio, pick_video,
  releases, leave, process_event, quiet, choose, turn,
}

-- The payloads, audio and video that the plugin is called for.
unfoldable pub media_calls : List Act → ℕ
media_calls [] = 0
media_calls (Act.on_event Kind.signal d v ∷ rest) = media_calls rest
media_calls (Act.on_event _ d v ∷ rest) = suc (media_calls rest)
media_calls (_ ∷ rest) = media_calls rest

-- How often the value is given back, as one of the kind.
abbrev pub gives : Kind → ℕ → Act → ℕ
gives Kind.audio v (Act.release Kind.audio w) = if w == v then 1 else 0
gives Kind.video v (Act.release Kind.video w) = if w == v then 1 else 0
gives _ v _ = 0

unfoldable pub released : Kind → ℕ → List Act → ℕ
released k v [] = 0
released k v (a ∷ rest) = gives k v a + released k v rest

-- How often it waits in the queue of the kind.
unfoldable pub waiting : Kind → ℕ → LoopNode → ℕ
waiting Kind.signal v n = occurs v n.signals
waiting Kind.payload v n = occurs v n.payloads
waiting Kind.audio v n = occurs v n.audios
waiting Kind.video v n = occurs v n.videos

abbrev pub is_counted : Kind → Bool
is_counted Kind.audio = true
is_counted Kind.video = true
is_counted _ = false

media_calls-releases :
    (vs ws : List ℕ) → media_calls (releases Kind.audio vs ++ releases Kind.video ws) ≡ 0
unfolding media_calls
media_calls-releases [] [] = refl
media_calls-releases [] (w ∷ ws) = media_calls-releases [] ws
media_calls-releases (v ∷ vs) ws = media_calls-releases vs ws

released-audio :
    (x : ℕ) (vs ws : List ℕ)
    → released Kind.audio x (releases Kind.audio vs ++ releases Kind.video ws) ≡ occurs x vs
unfolding released
released-audio x [] [] = refl
released-audio x [] (w ∷ ws) = omega (arith, released-audio x [] ws)
released-audio x (v ∷ vs) ws = ground (arith, released-audio x vs ws)

released-video :
    (x : ℕ) (vs ws : List ℕ)
    → released Kind.video x (releases Kind.audio vs ++ releases Kind.video ws) ≡ occurs x ws
unfolding released
released-video x [] [] = refl
released-video x [] (w ∷ ws) = ground (arith, released-video x [] ws)
released-video x (v ∷ vs) ws = omega (arith, released-video x vs ws)

-- While a control or a signal waits, a turn of the loop calls the plugin for no payload and no media.
pub turn-quiet :
    (pick : Pick) (n : LoopNode) (out : LoopNode × List Act)
    → quiet n ≡ false
    → turn pick n ≡ some out
    → media_calls out.1 ≡ 0
unfolding turn choose process_event leave media_calls
turn-quiet pick_control n out busy h =
    ground (arith, h, busy, media_calls-releases n.audios n.videos)
turn-quiet pick_signal n out busy h =
    ground (arith, h, busy, media_calls-releases n.audios n.videos)
turn-quiet pick_payload n out busy h =
    ground (arith, h, busy, media_calls-releases n.audios n.videos)
turn-quiet pick_audio n out busy h = ground (arith, h, busy, media_calls-releases n.audios n.videos)
turn-quiet pick_video n out busy h = ground (arith, h, busy, media_calls-releases n.audios n.videos)

leave_accounts :
    (k : Kind) (v : ℕ) (n : LoopNode)
    → is_counted k ≡ true
    → waiting k v (leave n).0 + released k v (leave n).1 ≡ waiting k v n
unfolding waiting leave released
leave_accounts Kind.signal v n c = absurd (cc c)
leave_accounts Kind.payload v n c = absurd (cc c)
leave_accounts Kind.audio v n c = omega (arith, released-audio v n.audios n.videos)
leave_accounts Kind.video v n c = omega (arith, released-video v n.audios n.videos)

choose_accounts :
    (k : Kind) (v : ℕ) (pick : Pick) (n : LoopNode) (out : LoopNode × List Act)
    → is_counted k ≡ true
    → choose pick n ≡ some out
    → waiting k v out.0 + released k v out.1 ≡ waiting k v n
unfolding choose process_event waiting released leave
choose_accounts Kind.signal v pick n out c h = absurd (cc c)
choose_accounts Kind.payload v pick n out c h = absurd (cc c)
choose_accounts Kind.audio v pick_control n out c h =
    ground (arith, h, released-audio v n.audios n.videos)
choose_accounts Kind.audio v pick_signal n out c h = ground (arith, h)
choose_accounts Kind.audio v pick_payload n out c h = ground (arith, h)
choose_accounts Kind.audio v pick_audio n out c h = ground (arith, h)
choose_accounts Kind.audio v pick_video n out c h = ground (arith, h)
choose_accounts Kind.video v pick_control n out c h =
    ground (arith, h, released-video v n.audios n.videos)
choose_accounts Kind.video v pick_signal n out c h = ground (arith, h)
choose_accounts Kind.video v pick_payload n out c h = ground (arith, h)
choose_accounts Kind.video v pick_audio n out c h = ground (arith, h)
choose_accounts Kind.video v pick_video n out c h = ground (arith, h)

pub turn_accounts :
    (k : Kind) (v : ℕ) (pick : Pick) (n : LoopNode) (out : LoopNode × List Act)
    → is_counted k ≡ true
    → turn pick n ≡ some out
    → waiting k v out.0 + released k v out.1 ≡ waiting k v n
unfolding turn
turn_accounts k v pick n out c h =
    ground (arith, h, leave_accounts k v n c, choose_accounts k v pick n out c)
