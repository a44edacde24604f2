-- ===== src/Tests/Queue.antt =====
-- queues/posix.c over a kernel that keeps the names in use.
use banip.Base.{
  ℕ, ◌≡◌, refl, Bool, true, false, [], Option, none, some, Bytes, codes, str_eq, str_eq_refl,
  if◌then◌else◌, returns, Returns, ◌>>=◌, arith,
}
use banip.Error.{Slot, IsFull}
use banip.Process.{Proc, Reply, done, failed}
use banip.Parse.Addr.Errors.{clean}
use banip.Queue.{fl_owner}
use banip.Queue.Posix.{MqAttr, OpenFlags, Kernel, PosixQueue, initial, queue_open, queue_close}
use banip.Queue.Posix.Ownership.{HasNames, queue_close-owner, second_owner_unlinks}

-- Which names are in use.
abbrev pub Names : Type 0
Names = Bytes → Bool

abbrev set_name : Bytes → Bool → Names → Names
set_name name used w n = if str_eq n name then used else w n

abbrev open_name : Bytes → OpenFlags → Names → Reply ℕ × Names
open_name name flags w =
    if w name
    then if flags.create then (failed 17, w) else (done 3, w)
    else if flags.create
    then (done 3, set_name name true w)
    else (failed 2, w)

-- `mq_receive` always gives the same text; `copies` says whether there is memory.
abbrev pub small_kernel : Bool → Bytes → Kernel Names
small_kernel copies text = record {
  malloc = λ w. (true, w);
  strdup = λ w. (copies, w);
  mq_open = λ name flags attr w. open_name name flags w;
  mq_getattr = λ d w. (done (record { maxmsg = 10; msgsize = 1024 }), w);
  mq_receive = λ d size w. (done text, w);
  mq_send = λ d text' w. (done tt, w);
  mq_close = λ d w. (done tt, w);
  mq_unlink = λ name w. (done tt, set_name name false w);
}

abbrev pub the_kernel : Kernel Names
the_kernel = small_kernel true (codes "10.1.2.3/20")

abbrev no_memory : Kernel Names
no_memory = small_kernel false []

pub open_excl :
    (name : Bytes) (flags : OpenFlags) (attr : MqAttr) (w : Names) (d : ℕ)
    → flags.create ≡ true
    → (open_name name flags w).0 ≡ done d
    → w name ≡ false
open_excl name flags attr w d create opened = ground arith

pub open_creates :
    (name : Bytes) (flags : OpenFlags) (attr : MqAttr) (w : Names) (d : ℕ)
    → (open_name name flags w).0 ≡ done d
    → (open_name name flags w).1 name ≡ true
open_creates name flags attr w d opened = ground (arith, str_eq_refl name)

pub open_failed :
    (name : Bytes) (flags : OpenFlags) (attr : MqAttr) (w : Names) (n : ℕ)
    → (open_name name flags w).0 ≡ failed n
    → (open_name name flags w).1 name ≡ w name
open_failed name flags attr w n opened = ground arith

abbrev pub the_names : HasNames the_kernel
the_names = record {
  exists = λ w. w;
  excl = open_excl;
  creates = open_creates;
  failed_keeps = open_failed;
  unlinks = λ name w h. rw (str_eq_refl name) refl;
  close_keeps = λ d w n. refl;
  strdup_keeps = λ w n. refl;
}

abbrev pub name : Bytes
name = codes "/banip"

abbrev pub none_used : Names
none_used n = false

abbrev pub in_use : Names
in_use = set_name name true none_used

abbrev pub process : {W : Type 0} → W → Proc W
process w = record { env = clean 0; umask = 18; world = w }

abbrev pub owned : PosixQueue
owned = record initial { mq = some 3; filename = some name }

queue_close-owner_example :
    Returns
      (λ r. (r.0 ≡ true) × (r.1 ≡ none) × (r.2.world name ≡ false))
      (queue_close the_kernel (some owned) (process in_use))
queue_close-owner_example =
    queue_close-owner the_kernel the_names owned name (process in_use) refl refl refl

second_owner_unlinks_example :
    Returns
      (λ (r : Bool × Slot × (Bool × Option PosixQueue × Proc Names)).
        (r.0 ≡ false) × IsFull r.1 × (r.2.2.world name ≡ false))
      (do
        (opened, q', p') ← queue_open the_kernel initial name fl_owner (process in_use)
        closed ← queue_close the_kernel (some q') p'
        returns (opened, p'.env.slot, closed))
second_owner_unlinks_example =
    second_owner_unlinks the_kernel the_names initial name (process in_use) refl refl refl
      λ w h. refl
