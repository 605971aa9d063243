-- ===== src/Io/Vc/Samples.antt =====
-- A VideoCore that answers every message at once with the same reply.
use swink.Common.{ℕ, ◌≡◌, refl, List, [], ◌∷◌, ◌++◌, ◌==◌, if◌then◌else◌}
use swink.Io.{at_once}
use swink.Io.Registers.{vc_mailbox_read, vc_mailbox_write, vc_mailbox_response}
use swink.Io.Vc.{SharedBus}
use swink.Io.Vc.Queue.{VideoCore}

-- What the mailbox holds, from the oldest on.
unfoldable pub first : List ℕ → ℕ
first [] = 0
first (value ∷ values) = value

unfoldable pub others : List ℕ → List ℕ
others [] = []
others (value ∷ values) = values

abbrev pub firmware : SharedBus
firmware = record {
  bus = record {
    Device = List ℕ;
    read = λ address d. if address == vc_mailbox_read then (first d, others d) else (0, d);
    write = λ address value d. if address == vc_mailbox_write then d ++ (value ∷ []) else d;
  };
  lend = λ address m d. d;
  collect = λ address d. record { length = 32; type = vc_mailbox_response; body = λ i. 8 };
}

pub first-others :
    (d : List ℕ) (value : ℕ) (values : List ℕ)
    → d ≡ value ∷ values
    → (first d ≡ value) × (others d ≡ values)
unfolding first others
first-others d value values e = (rw e refl, rw e refl)

abbrev pub answering : VideoCore firmware
answering = record {
  queue = λ d. d;
  patience = 0;
  accepts = λ d. (d, at_once refl, refl);
  answers = λ tx d. refl;
  delivers =
      λ d value values e. let (v, q) = first-others d value values e in (d, at_once refl, v, q);
  keeps_queue = λ address m d. refl;
}

abbrev pub enough_reads : ℕ
enough_reads = 3

abbrev pub stack : ℕ
stack = 4096

abbrev pub one_stale : List ℕ
one_stale = 24 ∷ []
