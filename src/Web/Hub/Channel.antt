-- ===== src/Web/Hub/Channel.antt =====
-- A lease as an abstract channel: the events published to its session since the claim, in order. What
-- the client was handed is a part at the front, what waits in the pipe is the rest.
use echocoding_harness.Common.{
  ap, ℕ, ◌<◌, ◌≡◌, refl, arith, false, List, [], ◌∷◌, ◌++◌, All, All-append_left, All-in,
  if◌then◌else◌, Text, text_eq,
}
use echocoding_harness.Contracts.Event.{Event}
use echocoding_harness.Web.Hub.{Pipe, buffer, collecting, live, sort, insert_event, was_seen, Step}

abbrev pub waiting_in : Pipe → List Event
waiting_in (buffer events) = events
waiting_in (collecting queue seen) = queue
waiting_in live = []

-- The events that a sequence of steps publishes to a session.
abbrev pub published_by : Text → Step → List Event → List Event
published_by s (Step.publishing e) rest = if text_eq e.session_id s then e ∷ rest else rest
published_by s _ rest = rest

unfoldable pub published : Text → List Step → List Event
published s [] = []
published s (x ∷ xs) = published_by s x (published s xs)

-- The numbers grow, as those of a session's log do.
unfoldable pub Rising : List Event → Type 0
Rising [] = Unit
Rising (e ∷ es) = All (λ (x : Event). e.sequence < x.sequence) es × Rising es

pub Rising-append_left : (es fs : List Event) → Rising (es ++ fs) → Rising es
unfolding Rising
Rising-append_left [] fs r = tt
Rising-append_left (e ∷ es) fs (a, r) = (All-append_left _ es fs a, Rising-append_left es fs r)

pub Rising-append_right : (es fs : List Event) → Rising (es ++ fs) → Rising fs
unfolding Rising
Rising-append_right [] fs r = r
Rising-append_right (e ∷ es) fs (a, r) = Rising-append_right es fs r

insert_first :
    (e : Event) (es : List Event)
    → All (λ (x : Event). e.sequence < x.sequence) es
    → insert_event e es ≡ e ∷ es
unfolding insert_event
insert_first e [] a = refl
insert_first e (x ∷ xs) (a, _) = ground arith

-- A rising queue is sorted.
pub sort-Rising : (es : List Event) → Rising es → sort es ≡ es
unfolding sort Rising
sort-Rising [] r = refl
sort-Rising (e ∷ es) (a, r) = rw (sort-Rising es r) (insert_first e es a)

abbrev pub sequences : List Event → List ℕ
sequences [] = []
sequences (e ∷ es) = e.sequence ∷ sequences es

pub sequences-append :
    (es : List Event) (e : Event) → sequences (es ++ e ∷ []) ≡ sequences es ++ e.sequence ∷ []
sequences-append [] e = refl
sequences-append (x ∷ es) e = ap (λ ns. x.sequence ∷ ns) (sequences-append es e)

-- The next event of a rising list was not seen.
pub was_seen-Rising :
    (es : List Event) (e : Event) (fs : List Event)
    → Rising (es ++ e ∷ fs)
    → was_seen e.sequence (sequences es) ≡ false
unfolding was_seen Rising
was_seen-Rising [] e fs r = refl
was_seen-Rising (x ∷ es) e fs (a, r) = ground (arith, was_seen-Rising es e fs r, All-in _ es e fs a)

-- The pipe of an open lease against the channel.
abbrev pub Carries : Pipe → List Event → List Event → Type 0
Carries (buffer events) sent all_ = (sent ≡ []) × (events ≡ all_)
Carries (collecting queue seen) sent all_ = (seen ≡ sequences sent) × (sent ++ queue ≡ all_)
Carries live sent all_ = sent ≡ all_

pub published-append :
    (s : Text) (x : Step) (xs : List Step)
    → published_by s x [] ++ published s xs ≡ published s (x ∷ xs)
unfolding published
published-append s (Step.publishing e) xs = ground arith
published-append s (Step.subscribing _ _) xs = refl
published-append s _ xs = refl
