-- ===== src/Output/Deliver.antt =====
-- The loop over the subscribers of an output in `postWorkTasks` of lib/Framework/WorkerActor.cpp.
use mathlib.Core.List.{map}
use pothos_core.Base.{ℕ, ◌<◌, ◌≡◌, refl, true, false, Bool, some, List, ◌∷◌, [], ◌++◌, word}
use pothos_core.Buffer.{BufferChunk}
use pothos_core.Buffer.Copy.{Heap, PositiveLengths}
use pothos_core.Label.{Label}
use pothos_core.Accumulator.{Memory}
use pothos_core.Accumulator.Stream.{stream}
use pothos_core.Accumulator.Push.{IsValid}
use pothos_core.Input.{InputPort, sent, kept, shift, buffer_label_push}
use pothos_core.Input.Bytes.{CanPushAll, buffer_label_push_lem}
use pothos_core.Output.{push_subscribers}

module _ {A : Type 0} (memory : Memory) (heap : Heap) (labels : List (Label A))
    (buffers : List BufferChunk) where
  -- What a subscriber gets
  abbrev pub Got : InputPort A → InputPort A → Type 0
  Got s s' =
      IsValid s'.bytes
      × (s'.input_inline_messages
          ≡ s.input_inline_messages ++ map (shift s.bytes.bytes_available) labels)
      × (stream memory s'.bytes.queue ≡ stream memory s.bytes.queue ++ stream memory buffers)

  unfoldable pub AllGot : List (InputPort A) → List (InputPort A) → Type 0
  AllGot [] [] = Unit
  AllGot [] (t ∷ ts) = ⊥
  AllGot (s ∷ ss) [] = ⊥
  AllGot (s ∷ ss) (t ∷ ts) = Got s t × AllGot ss ts

  -- The buffers that are sent can be pushed.
  abbrev pub CanTake : Bool → InputPort A → Type 0
  CanTake enable_move s =
      IsValid s.bytes
      × ((cs : List BufferChunk)
          → sent heap enable_move buffers ≡ some cs
          → CanPushAll memory heap s.dtype s.bytes cs)

  -- The last subscriber can take the buffers, and each before it their copies.
  unfoldable pub AllReady : List (InputPort A) → Type 0
  AllReady [] = Unit
  AllReady (s ∷ []) = CanTake true s
  AllReady (s ∷ t ∷ rest) = CanTake false s × AllReady (t ∷ rest)

  Pushed : Bool → InputPort A → Type 0
  Pushed enable_move s =
      (s' : InputPort A) × (buffer_label_push heap enable_move labels buffers s
        ≡ some (s', kept enable_move labels, kept enable_move buffers))
      × Got s s'

  pushed_lem :
      (enable_move : Bool) (s : InputPort A)
      → ((i : ℕ) → (heap i).buffer.address < word)
      → PositiveLengths heap
      → CanTake enable_move s
      → Pushed enable_move s
  unfolding Pushed
  pushed_lem enable_move s small lengths can =
      let (s', made, valid, messages, show, marks) =
        buffer_label_push_lem memory heap enable_move labels buffers s can.0 small (λ e. lengths)
          can.1 in
      (s', made, (valid, messages, show))

  -- When each subscriber can take the posted buffers, which are copied for all but the last, and each
  -- managed buffer has a positive length that an int holds: each subscriber, the last one and those
  -- before it alike, gets all posted labels and shows the bytes of all posted buffers behind its own.
  pub push_subscribers_lem :
      (subscribers : List (InputPort A))
      → ((i : ℕ) → (heap i).buffer.address < word)
      → PositiveLengths heap
      → AllReady subscribers
      → (subscribers' : List (InputPort A)) × (push_subscribers heap labels buffers subscribers
          ≡ some subscribers')
        × AllGot subscribers subscribers'
  unfolding push_subscribers AllGot AllReady Pushed
  push_subscribers_lem [] small lengths ready = ([], refl, tt)
  push_subscribers_lem (s ∷ []) small lengths ready =
      let (s', made, got) = pushed_lem true s small lengths ready in
      (s' ∷ [], rw made refl, (got, tt))
  push_subscribers_lem (s ∷ t ∷ rest) small lengths ready =
      let (s', made, got) = pushed_lem false s small lengths ready.0 in
      let (rest', made', all) = push_subscribers_lem (t ∷ rest) small lengths ready.1 in
      (s' ∷ rest', rw (made, made') refl, (got, all))
