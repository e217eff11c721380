-- ===== src/Ring/Queue.antt =====
-- What a ring promises: a bounded first-in first-out queue of messages.
use psroot.Prelude.{ℕ, List, [], ◌∷◌, ◌++◌, ltb, leb, if◌then◌else◌, length}
use psroot.Proto.{SlotHeader, data_capacity}
use psroot.Ring.{Result, ok, err, RingError, Op, Reply}

abbrev pub Message : Type 0
Message = SlotHeader × List ℕ

-- A message arrives with its length in the header, whatever the sender had there.
abbrev pub stamp : SlotHeader → List ℕ → Message
stamp h bytes = (record h { payload_len = length bytes }, bytes)

abbrev pub push : ℕ → SlotHeader → List ℕ → List Message → Result (Unit {0}) × List Message
push cap h bytes q =
    if ltb data_capacity (length bytes)
    then (err RingError.too_small, q)
    else if leb cap (length q)
    then (err RingError.full, q)
    else (ok tt, q ++ stamp h bytes ∷ [])

abbrev pub pop : List Message → Result Message × List Message
pop [] = (err RingError.empty, [])
pop (m ∷ q) = (ok m, q)

abbrev pub peek : List Message → Result Message
peek [] = err RingError.empty
peek (m ∷ q) = ok m

unfoldable pub run : ℕ → List Op → List Message → List Reply
run cap [] q = []
run cap (Op.push h bytes ∷ ops) q =
    let (answer, q') = push cap h bytes q in Reply.pushed answer ∷ run cap ops q'
run cap (Op.pop ∷ ops) q = let (answer, q') = pop q in Reply.popped answer ∷ run cap ops q'
