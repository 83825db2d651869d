-- ===== src/Tests/Probing.antt =====
-- The properties of probes and of calls that wait at the sample worlds.
use umpi.Base.{◌==◌, ◌≡◌, refl, arith, some, true, [], ◌∷◌}
use umpi.World.{World}
use umpi.Mailbox.{take_first}
use umpi.Mailbox.Engine.{view, envelope}
use umpi.Calls.{Umpi, Status, comm_world, asleep, issend_refuses}
use umpi.Calls.Probe.{mpi_iprobe, probe_refuses, resume, walk_from_start, walk}
use umpi.Calls.Probe.Announce.{told_of, oldest, iprobe_lem}
use umpi.Calls.Probe.Resume.{match_of, head, resume-find_any}
use umpi.Calls.Blocking.{mpi_ssend, ssend_sleeps}
use umpi.Tests.Samples.{copying, ints, silent, sent}

abbrev receiver : Umpi
receiver = record { size = 2; rank = 1; trigger = 8 }

abbrev blank : Status
blank = record { source = 0; tag = 0; error = 0; len = 0 }

iprobe_lem_example :
    let r = mpi_iprobe (some receiver) 0 7 comm_world true (some blank) sent in
    told_of r.flag r.status ≡ some (oldest (envelope 0 7) ((view sent).messages 1))
unfolding probe_refuses
iprobe_lem_example = iprobe_lem receiver 0 7 comm_world blank sent refl

-- The request 5 came while the probe slept behind 3 and 4.
resume-find_any_example :
    match_of (resume (λ c. c == 5) (walk_from_start (λ c. c == 5) (3 ∷ 4 ∷ [])) (3 ∷ 4 ∷ 5 ∷ []))
    ≡ head (take_first (λ c. c == 5) (3 ∷ 4 ∷ 5 ∷ []))
unfolding walk_from_start walk
resume-find_any_example =
    resume-find_any (λ c. c == 5) (λ c. c == 5) (3 ∷ 4 ∷ []) (5 ∷ []) (λ c. ground arith)
      (refl, (refl, tt)) refl

abbrev sender : Umpi
sender = record { size = 2; rank = 0; trigger = 8 }

ssend_sleeps_example :
    (w' : World) × (mpi_ssend copying (some sender) 9 100 3 (some ints) 1 7 comm_world silent
      ≡ some (asleep w'))
unfolding issend_refuses take_first
ssend_sleeps_example = ssend_sleeps copying sender 9 100 3 ints 1 7 comm_world silent refl refl
