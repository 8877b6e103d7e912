-- ===== src/Port/Messages.antt =====
-- What a block sees of the messages of an input port, against a first-in-first-out list.
use pothos_core.Base.{
  ℕ, ◌+◌, ◌%◌, word, ◌≡◌, refl, ◌∙◌, Bool, true, false, not, Option, some, ◌>>=◌, ◌==◌,
  if◌then◌else◌, List, [], ◌∷◌, length, arith, add_size,
}
use pothos_core.RingDeque
use pothos_core.RingDeque.{RingDeque}
use pothos_core.RingDeque.Rep.{front_lem}
use pothos_core.RingDeque.Ends.{popped_front, pop_front-eq, pop_front-Represents}
use pothos_core.RingDeque.Moves.{clear_lem}
use pothos_core.Buffer.{BufferChunk}
use pothos_core.Port.{
  InputPort, Report, message_overflow, slot_overflow, max_queue_capacity, async_messages_push,
  async_messages_pop, async_messages_peek, async_messages_clear, has_message, pop_message,
}
use pothos_core.Port.Bounded.{Bounded, received, push_bounded_lem}

-- the calls that others make on the messages of a port
pub data Call {ℓ} (M : Type ℓ) : Type ℓ where
  send : M → BufferChunk → Call M
  take peek ask purge : Call M

pub data Reply {ℓ} (M : Type ℓ) : Type ℓ where
  nothing : Reply M
  message : M → Reply M
  answer : Bool → Reply M

-- what the specification keeps: the messages, oldest first, how often all were lost, and how many
-- calls took a message or found none
pub record Mailbox {ℓ} (M : Type ℓ) : Type ℓ where
  pub items : List (M × BufferChunk)
  pub losses : ℕ
  pub takes : ℕ

abbrev pub overflows : List Report → ℕ
overflows [] = 0
overflows (message_overflow ∷ rs) = overflows rs + 1
overflows (slot_overflow ∷ rs) = overflows rs

module _ {ℓ} {M : Type ℓ} (null : M) where
  -- A message that finds 1024 others takes their place.
  unfoldable pub step : Mailbox M → Call M → Reply M × Mailbox M
  step s (send m token) = (
    nothing,
    record {
      items = received s.items (m, token);
      losses = if length s.items == max_queue_capacity then s.losses + 1 else s.losses;
      takes = s.takes;
    },
  )
  step s take = elim s.items [
    | [] ↦ (message null, record s { takes = s.takes + 1 })
    | (m, token) ∷ xs ↦ (message m, record s { items = xs; takes = s.takes + 1 })
  ]
  step s peek = elim s.items [ [] ↦ (message null, s) | (m, token) ∷ xs ↦ (message m, s) ]
  step s ask = (answer (not (length s.items == 0)), s)
  step s purge = (nothing, record s { items = [] })

  unfoldable pub run : Mailbox M → List (Call M) → List (Reply M) × Mailbox M
  run s [] = ([], s)
  run s (c ∷ cs) =
      let (reply, s') = step s c in let (replies, s'') = run s' cs in (reply ∷ replies, s'')

  unfoldable pub port_step : InputPort M → Call M → Option (Reply M × InputPort M)
  port_step p (send m token) = async_messages_push p m token >>= λ p'. some (nothing, p')
  port_step p take = pop_message null p >>= λ (m, p'). some (message m, p')
  port_step p peek = async_messages_peek null p >>= λ m. some (message m, p)
  port_step p ask = some (answer (has_message p), p)
  port_step p purge = async_messages_clear p >>= λ p'. some (nothing, p')

  pub port_run : InputPort M → List (Call M) → Option (List (Reply M) × InputPort M)
  port_run p [] = some ([], p)
  port_run p (c ∷ cs) = port_step p c >>= λ (reply, p').
      port_run p' cs >>= λ (replies, p''). some (reply ∷ replies, p'')

  pub record Serves (p : InputPort M) (s : Mailbox M) : Type ℓ where
    pub queue : Bounded p.async_messages s.items
    pub counted : overflows p.reports ≡ s.losses
    pub taken : p.total_messages ≡ s.takes % word

  -- one call, and what is left after it
  Follows : InputPort M → Mailbox M → Call M → Type ℓ
  Follows p s c =
      (p' : InputPort M) × (port_step p c ≡ some ((step s c).0, p')) × Serves p' (step s c).1

  popped_lem :
      (q : RingDeque (M × BufferChunk)) (x : M × BufferChunk) (xs : List (M × BufferChunk))
      → Bounded q (x ∷ xs)
      → Bounded (popped_front q (length xs)) xs
  popped_lem q x xs b = record {
    ring = pop_front-Represents x xs b.ring;
    doublings = b.doublings;
    few = b.few;
    capacity_eq = b.capacity_eq;
  }

  Follows-send :
      (p : InputPort M) (s : Mailbox M) (m : M) (token : BufferChunk)
      → Serves p s
      → Follows p s (send m token)
  unfolding Follows port_step step async_messages_push
  Follows-send p s m token v =
      let (q, ran, b) = push_bounded_lem p.async_messages s.items m token v.queue in
      (
        record p {
          async_messages = q;
          change_flagged = true;
          reports =
              if length s.items == max_queue_capacity
              then message_overflow ∷ p.reports
              else p.reports;
        },
        rw ran refl,
        record {
          queue = b;
          counted = counted_lem (length s.items == max_queue_capacity);
          taken = v.taken;
        },
      )
    where
      counted_lem :
          (b : Bool)
          → overflows (if b then message_overflow ∷ p.reports else p.reports)
            ≡ (if b then s.losses + 1 else s.losses)
      counted_lem true = omega (arith, v.counted)
      counted_lem false = v.counted

  Follows-purge : (p : InputPort M) (s : Mailbox M) → Serves p s → Follows p s purge
  unfolding Follows port_step step async_messages_clear
  Follows-purge p s v =
      let (q, ran, w, cap) = clear_lem p.async_messages s.items v.queue.ring in
      (
        record p { async_messages = q },
        rw ran refl,
        record {
          queue = record {
            ring = w;
            doublings = v.queue.doublings;
            few = v.queue.few;
            capacity_eq = cap ∙ v.queue.capacity_eq;
          };
          counted = v.counted;
          taken = v.taken;
        },
      )

  Follows-take :
      (p : InputPort M) (xs : List (M × BufferChunk)) (n k : ℕ)
      → Serves p (record { items = xs; losses = n; takes = k })
      → Follows p (record { items = xs; losses = n; takes = k }) take
  unfolding Follows port_step step pop_message async_messages_pop
  Follows-take p [] n k v = (
    record p {
      total_messages = add_size p.total_messages 1;
      work_events = add_size p.work_events 1;
    },
    ground (arith, v.queue.ring.count),
    record { queue = v.queue; counted = v.counted; taken = omega (arith, v.taken) },
  )
  Follows-take p (x ∷ xs) n k v = (
    record p {
      async_messages = popped_front p.async_messages (length xs);
      total_messages = add_size p.total_messages 1;
      work_events = add_size p.work_events 1;
    },
    rw (busy, front_lem x v.queue.ring, pop_front-eq x xs v.queue.ring) refl,
    record {
      queue = popped_lem p.async_messages x xs v.queue;
      counted = v.counted;
      taken = omega (arith, v.taken);
    },
  )
    where
      more_taken : add_size p.total_messages 1 ≡ (k + 1) % word
      more_taken = omega (arith, v.taken)

      busy : RingDeque.empty p.async_messages ≡ false
      busy = ground (arith, v.queue.ring.count)

  Follows-peek :
      (p : InputPort M) (xs : List (M × BufferChunk)) (n k : ℕ)
      → Serves p (record { items = xs; losses = n; takes = k })
      → Follows p (record { items = xs; losses = n; takes = k }) peek
  unfolding Follows port_step step async_messages_peek
  Follows-peek p [] n k v = (p, ground (arith, v.queue.ring.count), v)
  Follows-peek p (x ∷ xs) n k v =
      (p, ground (arith, v.queue.ring.count, front_lem x v.queue.ring), v)

  Follows-ask : (p : InputPort M) (s : Mailbox M) → Serves p s → Follows p s ask
  unfolding Follows port_step step
  Follows-ask p s v = (p, rw v.queue.ring.count refl, v)

  Follows-call : (p : InputPort M) (s : Mailbox M) (c : Call M) → Serves p s → Follows p s c
  Follows-call p s (send m token) v = Follows-send p s m token v
  Follows-call p s take v = Follows-take p s.items s.losses s.takes v
  Follows-call p s peek v = Follows-peek p s.items s.losses s.takes v
  Follows-call p s ask v = Follows-ask p s v
  Follows-call p s purge v = Follows-purge p s v

  -- Whatever calls come, in whatever order, none of the port's assertions fails, and its replies
  -- are those of a first-in-first-out list that is emptied when a message finds 1024 in it; the
  -- port reports each such loss once. A read of no message gives the null object, and `popMessage`
  -- counts each of its calls, those that find no message included.
  pub port_run-eq-run :
      (cs : List (Call M)) (p : InputPort M) (s : Mailbox M)
      → Serves p s
      → (p' : InputPort M) × (port_run p cs ≡ some ((run s cs).0, p')) × Serves p' (run s cs).1
  unfolding port_run run Follows
  port_run-eq-run [] p s v = (p, refl, v)
  port_run-eq-run (c ∷ cs) p s v =
      let (p', ran, w) = Follows-call p s c v in
      let (p'', rest, w') = port_run-eq-run cs p' (step s c).1 w in (p'', rw (ran, rest) refl, w')
