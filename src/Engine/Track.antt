-- ===== src/Engine/Track.antt =====
-- internal/engine/multi.go: the tracks of MultiTrackPlugin, one queue and goroutine for each media
-- type. A value is the number of its object; `dropped` lists the values that the track lets go
-- unhandled (released, where they are counted references) and `handled` those given to the plugin.
pub mod Push
pub mod Interrupt
use voce.Prelude.{
  ℕ, zero, suc, ◌+◌, ◌%◌, ◌^◌, Bool, true, false, not, ◌||◌, ◌==◌, ltb, if◌then◌else◌, str_eq,
  Option, none, some, List, [], ◌∷◌, ◌++◌, length, any, map, String,
}

pub data DropStrategy : Type 0 where
  drop_newest block_if_full drop_oldest : DropStrategy

-- internalData: a value with the epoch at which it was pushed.
pub record Item : Type 0 where
  pub epoch : ℕ
  pub value : ℕ

pub record Track : Type 0 where
  pub ch : List Item
  pub room : ℕ  -- the capacity of the channel
  pub strategy : DropStrategy
  pub epoch : ℕ  -- atomic.Int32, as its bit pattern
  pub current : Option ℕ  -- the value whose handler runs
  pub cancel : Bool  -- whether the cancel function of its context is there
  pub signals : List String
  pub dropped : List ℕ
  pub handled : List ℕ
  pub interrupted : List ℕ  -- the values whose handler's context was cancelled

unfoldable pub new_stream : ℕ → DropStrategy → List String → Track
new_stream size strategy signals = record {
  ch = [];
  room = size;
  strategy = strategy;
  epoch = 0;
  current = none;
  cancel = false;
  signals = signals;
  dropped = [];
  handled = [];
  interrupted = [];
}

pub data SendError : Type 0 where
  cancelled blocked : SendError

-- pkg/syncx/chan.go, SendWithNonBlocking, with `done` for the end of the context.
unfoldable pub send_nonblocking : Bool → Track → Item → Track × Option SendError
send_nonblocking done t item =
    if done
    then (t, some SendError.cancelled)
    else if ltb (length t.ch) t.room
    then (record t { ch = t.ch ++ (item ∷ []) }, none)
    else (t, some SendError.blocked)

abbrev pub drop_item : Track → Item → Track
drop_item t item = record t { dropped = item.value ∷ t.dropped }

-- One receive on the channel, if anything is there.
abbrev pub take_oldest : Track → Track
take_oldest t = elim t.ch [ [] ↦ t | oldest ∷ rest ↦ drop_item (record t { ch = rest }) oldest ]

unfoldable pub push_drop_newest : Bool → Track → Item → Track
unfolding send_nonblocking
push_drop_newest done t item =
    let (t', e) = send_nonblocking done t item in elim e [ none ↦ t' | some _ ↦ drop_item t' item ]

-- SendWithContext waits while the channel is full and the context lives: `none`, to be tried again
-- after another goroutine's step.
unfoldable pub push_block_if_full : Bool → Track → Item → Option Track
push_block_if_full done t item =
    if done
    then some (drop_item t item)
    else if ltb (length t.ch) t.room
    then some (record t { ch = t.ch ++ (item ∷ []) })
    else none

-- The loop, with fuel for its rounds; `none` means that it still turns.
unfoldable pub push_drop_oldest : ℕ → Bool → Track → Item → Option Track
unfolding send_nonblocking
push_drop_oldest zero done t item = none
push_drop_oldest (suc fuel) done t item =
    let (t', e) = send_nonblocking done t item in
    let again = push_drop_oldest fuel done (take_oldest t') item in
    elim e [
      | none ↦ some t'
      | some SendError.blocked ↦ again
      | some SendError.cancelled ↦ some (drop_item t' item)
    ]

-- The part of push after the value is stamped with the epoch that was loaded, which other goroutines
-- may have raised since. `none` is a push that waits, to be tried again with the same item.
unfoldable pub push_item : Bool → Track → Item → Option Track
unfolding push_drop_newest push_block_if_full push_drop_oldest
push_item done t item = elim t.strategy [
  | DropStrategy.drop_newest ↦ some (push_drop_newest done t item)
  | DropStrategy.block_if_full ↦ push_block_if_full done t item
  | DropStrategy.drop_oldest ↦ push_drop_oldest 2 done t item
]

-- The read loop takes one item: a stale one, or any while paused, is dropped; another starts its
-- handler. It waits while a handler runs or nothing is there.
unfoldable pub receive : Bool → Track → Track
receive paused t = elim t.current [
  | some _ ↦ t
  | none ↦ elim t.ch [
    | [] ↦ t
    | item ∷ rest ↦
        if paused || not (item.epoch == t.epoch)
        then drop_item (record t { ch = rest }) item
        else record t { ch = rest; current = some item.value; cancel = true }
  ]
]

-- The handler returns, or panics: the value is released and the context ends.
unfoldable pub finish : Track → Track
finish t = elim t.current [
  | none ↦ t
  | some v ↦ record t { current = none; cancel = false; handled = v ∷ t.handled }
]

abbrev pub current_of : Option ℕ → List ℕ
current_of none = []
current_of (some v) = v ∷ []

abbrev pub int32_mod : ℕ
int32_mod = 2 ^ 32

-- interruptTrack, for a track that is there.
unfoldable pub interrupt : String → Track → Track
interrupt name t = if not (any (λ s. str_eq s name) t.signals) then t else record t {
  epoch = (t.epoch + 1) % int32_mod;
  interrupted = if t.cancel then current_of t.current ++ t.interrupted else t.interrupted;
  cancel = false;
}

-- The deferred loop at the end of the read loop: what is left in the channel is let go.
abbrev pub values : List Item → List ℕ
values = map (λ i. i.value)

unfoldable pub drain_track : Track → Track
drain_track t = record t { ch = []; dropped = values t.ch ++ t.dropped }
