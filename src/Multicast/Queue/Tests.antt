-- ===== src/Multicast/Queue/Tests.antt =====
-- A queue of three messages, and the theorems on the heap at it.
use dist_sys_demos.Base.{zero, suc, ◌≡◌, refl, arith, true, false, none, some, [], ◌∷◌, map}
use dist_sys_demos.Base.Text.{codes}
use dist_sys_demos.Base.Int.{pos}
use mathlib.Core.List.{Perm}
use dist_sys_demos.Multicast.Queue.{Message, Queue, proposed, before, push, pop, update, remove}
use dist_sys_demos.Multicast.Queue.Order.{at, forget}
use dist_sys_demos.Multicast.Queue.Descent.{IsHeap}
use dist_sys_demos.Multicast.Queue.Sorted.{IsQueue, IsFirst, TakesOut, push-IsQueue}
use dist_sys_demos.Multicast.Queue.Removal.{remove-TakesOut, update-IsQueue, pop-TakesOut}

abbrev pub first : Message
first = record {
  id = codes "x";
  sender = 1;
  priority = 1;
  index = some 0;
  node_id = codes "node1";
  r_node_id = codes "node1";
  status = proposed;
  is_deliverable = false;
  is_deposit = true;
  names = codes "a" ∷ [];
  amount = pos 5;
}

abbrev pub second : Message
second = record first {
  id = codes "y";
  sender = 2;
  priority = 4;
  index = some 1;
  is_deliverable = true;
}

abbrev pub third : Message
third = record first { id = codes "z"; sender = 3; priority = 2; index = some 2 }

abbrev pub queue : Queue
queue = first ∷ second ∷ third ∷ []

queue-IsHeap : IsHeap 3 queue
unfolding at before
queue-IsHeap zero p r = absurd (omega arith)
queue-IsHeap (suc zero) p r = refl
queue-IsHeap (suc (suc zero)) p r = refl
queue-IsHeap (suc (suc (suc c))) p r = absurd (omega arith)

pub queue-IsQueue : IsQueue queue
queue-IsQueue = record { heap = queue-IsHeap; placed = (refl, (refl, (refl, tt))) }

push-IsQueue_example :
    (q1 : Queue) × (push first queue ≡ some q1)
    × IsQueue q1
    × Perm (map forget q1) (forget first ∷ map forget queue)
push-IsQueue_example = push-IsQueue first queue queue-IsQueue

pop-TakesOut_example : TakesOut (at queue 0) queue (pop queue) × IsFirst (at queue 0) queue
pop-TakesOut_example = pop-TakesOut queue queue-IsQueue (omega arith)

remove-TakesOut_example : TakesOut (at queue 1) queue (remove 1 queue)
remove-TakesOut_example = remove-TakesOut 1 queue queue-IsQueue (omega arith)

update-IsQueue_example :
    (q1 : Queue) × (update 1 9 queue ≡ some q1)
    × IsQueue q1
    × Perm
        (forget (at queue 1) ∷ map forget q1)
        (record (at queue 1) { priority = 9; index = none } ∷ map forget queue)
update-IsQueue_example = update-IsQueue 1 9 queue queue-IsQueue (omega arith)
