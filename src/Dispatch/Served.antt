-- ===== src/Dispatch/Served.antt =====
-- What becomes of a request in the daemon's queue.
use mathlib.Core.Option
use twili.Base.{List, Option, [], some, ℕ, ◌++◌, ◌∷◌, ◌≡◌, ◌≢◌, ◌⊎◌}
use twili.Messages.{Client, Request}
use twili.Daemon.{Daemon, post_response}
use twili.Dispatch.{find_device}
use twili.MetaInterface.Answers.{Answers, reply}

-- A response to the request is put into the queue, and nothing else happens.
abbrev pub Replied : Daemon → Client → Request → Daemon → Type 0
Replied d client rq d' =
    (code : ℕ) × (payload : List ℕ) × (d' ≡ post_response d (reply client rq code payload))

-- The request is sent to the device of its id, and no job is added.
abbrev pub Forwarded : Daemon → Request → Daemon → Type 0
Forwarded d rq d' =
    (address : ℕ) × (rq.device_id ≢ 0)
    × (find_device d rq.device_id ≡ some address)
    × (d'.sent ≡ d.sent ++ ((address, rq) ∷ []))
    × (d'.dispatch_queue ≡ d.dispatch_queue)

abbrev pub Served : Daemon → Client → Request → Option Daemon → Type 0
Served d client rq result =
    (d' : Daemon) × (result ≡ some d') × (Replied d client rq d' ⊎ Forwarded d rq d')
