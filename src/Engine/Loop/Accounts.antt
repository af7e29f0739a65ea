-- ===== src/Engine/Loop/Accounts.antt =====
-- internal/engine/node_loop.go: each counted value is given back once, whatever happens to a node.
use voce.Prelude.{
  ℕ, ◌+◌, ◌≡◌, refl, Bool, true, false, ◌==◌, if◌then◌else◌, Option, none, some, List, [], ◌∷◌,
  ◌++◌, arith, inl, inr, Option-cases, occurs-append,
}
use voce.Engine.Loop.{
  Kind, ControlType, LoopNode, Act, Pick, new_loop_node, start, stop_node, send_control, enqueue,
  input, turn,
}
use voce.Engine.Loop.Turns.{released, waiting, is_counted, turn_accounts}

pub data Event : Type 0 where
  starts : Bool → Event
  stops cancels : Event
  sends : Bool → ControlType → Event
  inputs : Bool → Kind → ℕ → Event
  turns : Pick → Event

abbrev or_wait : LoopNode → Option (LoopNode × List Act) → LoopNode × List Act
or_wait n none = (n, [])
or_wait n (some out) = out

abbrev silent : LoopNode → Option LoopNode → LoopNode × List Act
silent n none = (n, [])
silent n (some m) = (m, [])

-- A step that cannot be taken now is not taken.
unfoldable pub happen : Event → LoopNode → LoopNode × List Act
happen (starts succeeds) n = start succeeds n
happen stops n = (stop_node n, [])
happen cancels n = (record n { cancelled = true }, [])
happen (sends running c) n = silent n (send_control running c n)
happen (inputs live k v) n = or_wait n (input live k v n)
happen (turns pick) n = or_wait n (turn pick n)

unfoldable pub run : List Event → LoopNode → LoopNode × List Act
run [] n = (n, [])
run (e ∷ es) n = let (n', done) = happen e n in let (n'', more) = run es n' in (n'', done ++ more)

-- How often the value comes in, as one of the kind.
abbrev pub takes_in : Kind → ℕ → Event → ℕ
takes_in Kind.audio v (inputs live Kind.audio w) = if w == v then 1 else 0
takes_in Kind.video v (inputs live Kind.video w) = if w == v then 1 else 0
takes_in _ v _ = 0

unfoldable pub put_in : Kind → ℕ → List Event → ℕ
put_in k v [] = 0
put_in k v (e ∷ es) = takes_in k v e + put_in k v es

abbrev calls_loop : Event → Bool
calls_loop (inputs live j v) = true
calls_loop (turns pick) = true
calls_loop _ = false

input_accounts :
    (k j : Kind) (v w : ℕ) (live : Bool) (n : LoopNode)
    → is_counted k ≡ true
    → waiting k v (or_wait n (input live j w n)).0 + released k v (or_wait n (input live j w n)).1
      ≡ waiting k v n + put_in k v (inputs live j w ∷ [])
unfolding input enqueue waiting released put_in
input_accounts Kind.signal j v w live n c = absurd (cc c)
input_accounts Kind.payload j v w live n c = absurd (cc c)
input_accounts Kind.audio Kind.signal v w live n c =
    ground (arith, occurs-append v n.audios (w ∷ []))
input_accounts Kind.audio Kind.payload v w live n c =
    ground (arith, occurs-append v n.audios (w ∷ []))
input_accounts Kind.audio Kind.audio v w live n c =
    ground (arith, occurs-append v n.audios (w ∷ []))
input_accounts Kind.audio Kind.video v w live n c =
    ground (arith, occurs-append v n.audios (w ∷ []))
input_accounts Kind.video Kind.signal v w live n c =
    ground (arith, occurs-append v n.videos (w ∷ []))
input_accounts Kind.video Kind.payload v w live n c =
    ground (arith, occurs-append v n.videos (w ∷ []))
input_accounts Kind.video Kind.audio v w live n c =
    ground (arith, occurs-append v n.videos (w ∷ []))
input_accounts Kind.video Kind.video v w live n c =
    ground (arith, occurs-append v n.videos (w ∷ []))

-- What takes no value in and gives none back.
other_accounts :
    (k : Kind) (v : ℕ) (e : Event) (n : LoopNode)
    → is_counted k ≡ true
    → calls_loop e ≡ false
    → waiting k v (happen e n).0 + released k v (happen e n).1 ≡ waiting k v n + put_in k v (e ∷ [])
unfolding happen start stop_node send_control waiting released put_in
other_accounts Kind.signal v e n c o = absurd (cc c)
other_accounts Kind.payload v e n c o = absurd (cc c)
other_accounts Kind.audio v (starts b) n c o = ground arith
other_accounts Kind.audio v stops n c o = ground arith
other_accounts Kind.audio v cancels n c o = ground arith
other_accounts Kind.audio v (sends b d) n c o = ground arith
other_accounts Kind.audio v (inputs live j w) n c o = absurd (cc o)
other_accounts Kind.audio v (turns p) n c o = absurd (cc o)
other_accounts Kind.video v (starts b) n c o = ground arith
other_accounts Kind.video v stops n c o = ground arith
other_accounts Kind.video v cancels n c o = ground arith
other_accounts Kind.video v (sends b d) n c o = ground arith
other_accounts Kind.video v (inputs live j w) n c o = absurd (cc o)
other_accounts Kind.video v (turns p) n c o = absurd (cc o)

nothing_released :
    (k : Kind) (v : ℕ) (n : LoopNode) → waiting k v n + released k v [] ≡ waiting k v n
unfolding released
nothing_released Kind.signal v n = omega arith
nothing_released Kind.payload v n = omega arith
nothing_released Kind.audio v n = omega arith
nothing_released Kind.video v n = omega arith

turn_step_accounts :
    (k : Kind) (v : ℕ) (pick : Pick) (n : LoopNode)
    → is_counted k ≡ true
    → waiting k v (or_wait n (turn pick n)).0 + released k v (or_wait n (turn pick n)).1
      ≡ waiting k v n
turn_step_accounts k v pick n c = elim (Option-cases (turn pick n)) [
  | inl e ↦ rw e (nothing_released k v n)
  | inr (out, e) ↦ rw e (turn_accounts k v pick n out c e)
]

put_in-turns : (k : Kind) (v : ℕ) (pick : Pick) → put_in k v (turns pick ∷ []) ≡ 0
unfolding put_in
put_in-turns Kind.signal v pick = omega arith
put_in-turns Kind.payload v pick = omega arith
put_in-turns Kind.audio v pick = omega arith
put_in-turns Kind.video v pick = omega arith

happen_accounts :
    (k : Kind) (v : ℕ) (e : Event) (n : LoopNode)
    → is_counted k ≡ true
    → waiting k v (happen e n).0 + released k v (happen e n).1 ≡ waiting k v n + put_in k v (e ∷ [])
unfolding happen
happen_accounts k v (starts succeeds) n c = other_accounts k v (starts succeeds) n c refl
happen_accounts k v stops n c = other_accounts k v stops n c refl
happen_accounts k v cancels n c = other_accounts k v cancels n c refl
happen_accounts k v (sends b d) n c = other_accounts k v (sends b d) n c refl
happen_accounts k v (inputs live j w) n c = input_accounts k j v w live n c
happen_accounts k v (turns pick) n c =
    omega (arith, turn_step_accounts k v pick n c, put_in-turns k v pick)

released-append :
    (k : Kind) (v : ℕ) (xs ys : List Act)
    → released k v (xs ++ ys) ≡ released k v xs + released k v ys
unfolding released
released-append k v [] ys = omega arith
released-append k v (x ∷ xs) ys = omega (arith, released-append k v xs ys)

run_accounts :
    (k : Kind) (v : ℕ) (es : List Event) (n : LoopNode)
    → is_counted k ≡ true
    → waiting k v (run es n).0 + released k v (run es n).1 ≡ waiting k v n + put_in k v es
unfolding run put_in released
run_accounts k v [] n c = refl
run_accounts k v (e ∷ es) n c = omega (
  arith,
  happen_accounts k v e n c,
  run_accounts k v es (happen e n).0 c,
  released-append k v (happen e n).1 (run es (happen e n).0).1,
)

new_waiting : (k : Kind) (v : ℕ) → waiting k v new_loop_node ≡ 0
unfolding waiting new_loop_node
new_waiting Kind.signal v = refl
new_waiting Kind.payload v = refl
new_waiting Kind.audio v = refl
new_waiting Kind.video v = refl

-- Over anything that happens to a new node, an audio or video value has been given back exactly as
-- often as it came in, but for the times that it still waits in its queue.
pub new_loop_node_accounts :
    (k : Kind) (v : ℕ) (es : List Event)
    → is_counted k ≡ true
    → waiting k v (run es new_loop_node).0 + released k v (run es new_loop_node).1 ≡ put_in k v es
new_loop_node_accounts k v es c =
    omega (arith, run_accounts k v es new_loop_node c, new_waiting k v)
