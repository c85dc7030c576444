-- ===== src/Budget/Merge.antt =====
-- `CommandBudget`: what merging does to requests that are about different things.
use Prim.Native.Nat.{ℕ, ◌<◌}
use beta.Base.{
  Bool, true, false, none, some, List, [], ◌∷◌, ◌++◌, length, All, Text, ◌≡◌, refl, arith,
}
use beta.Command.{Command, supersedes, subscribe_channel, request_file_list}
use beta.Budget.{CommandBudget, max_queue, replace_superseded, push_back, enqueue}

-- No queued command is one that `c` supersedes.
abbrev pub Unmatched : Command → List Command → Type 0
Unmatched c qs = All (λ q. supersedes c q ≡ false) qs

replace-Unmatched :
    (c : Command) (qs : List Command) → Unmatched c qs → replace_superseded c qs ≡ none
unfolding replace_superseded
replace-Unmatched c [] u = refl
replace-Unmatched c (q ∷ qs) u = ground (arith, replace-Unmatched c qs)

replace_last :
    (c d : Command) (qs : List Command)
    → Unmatched d qs
    → supersedes d c ≡ true
    → replace_superseded d (qs ++ c ∷ []) ≡ some (qs ++ d ∷ [])
unfolding replace_superseded
replace_last c d [] u h = ground arith
replace_last c d (q ∷ qs) u h = ground (arith, replace_last c d qs)

enqueue_twice :
    (b : CommandBudget) (c d : Command)
    → Unmatched c b.queue
    → Unmatched d b.queue
    → supersedes d c ≡ true
    → length b.queue < max_queue
    → enqueue (enqueue b c) d ≡ record b { queue = b.queue ++ d ∷ [] }
unfolding enqueue push_back
enqueue_twice b c d u v h free =
    ground (arith, replace-Unmatched c b.queue u, replace_last c d b.queue v h)

subscribe-Unmatched :
    (x y : ℕ) (u w : Bool) (qs : List Command)
    → Unmatched (subscribe_channel x u) qs
    → Unmatched (subscribe_channel y w) qs
unfolding supersedes
subscribe-Unmatched x y u w [] h = tt
subscribe-Unmatched x y u w (subscribe_channel _ _ ∷ qs) h = cc (h.0)
subscribe-Unmatched x y u w (_ ∷ qs) h = (refl, subscribe-Unmatched x y u w qs h.1)

-- A subscription to one channel that still waits is lost when another channel is subscribed to or
-- unsubscribed from: only the second request is left, and the loss is not counted.
subscribe_lost :
    (b : CommandBudget) (x y : ℕ) (u w : Bool)
    → Unmatched (subscribe_channel x u) b.queue
    → length b.queue < max_queue
    → enqueue (enqueue b (subscribe_channel x u)) (subscribe_channel y w)
      ≡ record b { queue = b.queue ++ subscribe_channel y w ∷ [] }
unfolding supersedes
subscribe_lost b x y u w h free =
    enqueue_twice b (subscribe_channel x u) (subscribe_channel y w) h
      (subscribe-Unmatched x y u w b.queue h) refl free

list-Unmatched :
    (i j x y : ℕ) (p q r s : Text) (qs : List Command)
    → Unmatched (request_file_list i x p r) qs
    → Unmatched (request_file_list j y q s) qs
unfolding supersedes
list-Unmatched i j x y p q r s [] h = tt
list-Unmatched i j x y p q r s (request_file_list _ _ _ _ ∷ qs) h = cc (h.0)
list-Unmatched i j x y p q r s (_ ∷ qs) h = (refl, list-Unmatched i j x y p q r s qs h.1)

-- A listing of one directory that still waits is lost when any other directory is asked for, also
-- one of another channel, and the loss is not counted.
pub file_list_lost :
    (b : CommandBudget) (i j x y : ℕ) (p q r s : Text)
    → Unmatched (request_file_list i x p r) b.queue
    → length b.queue < max_queue
    → enqueue (enqueue b (request_file_list i x p r)) (request_file_list j y q s)
      ≡ record b { queue = b.queue ++ request_file_list j y q s ∷ [] }
unfolding supersedes
file_list_lost b i j x y p q r s h free =
    enqueue_twice b (request_file_list i x p r) (request_file_list j y q s) h
      (list-Unmatched i j x y p q r s b.queue h) refl free
