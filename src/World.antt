-- ===== src/World.antt =====
-- The shared state of umpi.hh: `struct cookie`, `class process` and the memory of the processes.
-- A cookie is named by its address, a process by its rank.
use umpi.Base.{
  ℕ, ◌-◌, ◌+◌, ◌^◌, Bool, not, ◌&&◌, ◌||◌, Option, some, none, List, u16, neg32, dec16, inc16,
  sext16, ◌==◌, if◌then◌else◌,
}
pub use umpi.Base.{update, update_self, update_other}
use umpi.Iovec.{Iovec}

-- include/mpi.h
abbrev pub mpi_success : ℕ
mpi_success = 0

abbrev pub mpi_fail : ℕ
mpi_fail = 1

abbrev pub mpi_any_source : ℕ
mpi_any_source = 2 ^ 32 - 1

abbrev pub mpi_any_tag : ℕ
mpi_any_tag = 2 ^ 32 - 1

-- A request. `size` and `count` are `int`, the last five fields `int16_t`.
pub record Cookie : Type 0 where
  pub owner : ℕ
  pub buf : ℕ
  pub iovec : Iovec
  pub size : ℕ
  pub count : ℕ
  pub tag : ℕ
  pub src : ℕ
  pub err : ℕ
  pub used : ℕ
  pub busy : ℕ

-- The constructor `cookie(…)`, and `reset`, which stores the same values. The `int` arguments
-- `tag`, `source` and `num` are cut to 16 bits.
unfoldable pub new_cookie : ℕ → ℕ → Iovec → ℕ → ℕ → ℕ → ℕ → ℕ → Cookie
new_cookie owner buf iovec size count source tag num = record {
  owner = owner;
  buf = buf;
  iovec = iovec;
  size = size;
  count = count;
  tag = u16 tag;
  src = u16 source;
  err = 0;
  used = 1;
  busy = u16 num;
}

-- `cookie::recv_match`, for a receive from `source` with `tag`.
unfoldable pub recv_match : Cookie → ℕ → ℕ → Bool
recv_match c source tag =
    (sext16 c.tag == tag || (tag == mpi_any_tag && not (neg32 (sext16 c.tag))))
    && (sext16 c.src == source || source == mpi_any_source)

-- `cookie::send_match`, for a message of `source` with `tag`.
unfoldable pub send_match : Cookie → ℕ → ℕ → Bool
send_match c source tag =
    (sext16 c.tag == tag || sext16 c.tag == mpi_any_tag)
    && (sext16 c.src == source || sext16 c.src == mpi_any_source)

-- `cookie::join`
unfoldable pub join : Cookie → Cookie
join c = record c { used = inc16 c.used }

-- What a process sleeps for, `enum waiting_for_type`.
pub data WaitingFor : Type 0 where
  not_waiting waiting_for_incoming waiting_for_any_cookie waiting_for_cookie : WaitingFor

abbrev pub for_cookie : WaitingFor → Bool
for_cookie waiting_for_cookie = Bool.true
for_cookie _ = Bool.false

abbrev pub for_incoming : WaitingFor → Bool
for_incoming waiting_for_incoming = Bool.true
for_incoming _ = Bool.false

-- `class process`: the lists hold cookies; `signals` counts the calls of `cond_.notify_one()`.
pub record Process : Type 0 where
  pub pid : ℕ
  pub free : List ℕ
  pub inbox : List ℕ
  pub outbox : List ℕ
  pub pending : List ℕ
  pub waiting : Option ℕ
  pub waiting_for : WaitingFor
  pub signals : ℕ

-- The byte of a process, by its pid, at an address.
abbrev pub Memory : Type 0
Memory = ℕ → ℕ → ℕ

pub record World : Type 0 where
  pub cookie : ℕ → Cookie
  pub process : ℕ → Process
  pub memory : Memory

abbrev pub set_cookie : World → ℕ → Cookie → World
set_cookie w c k = record w { cookie = update w.cookie c k }

abbrev pub set_process : World → ℕ → Process → World
set_process w r p = record w { process = update w.process r p }

abbrev pub names : Option ℕ → ℕ → Bool
names none c = Bool.false
names (some d) c = d == c

-- `waiting_for_ == waiting_for_cookie && waiting_ == cookie`
abbrev pub is_waited : Process → ℕ → Bool
is_waited p c = for_cookie p.waiting_for && names p.waiting c

-- `process::notify_done` of the process `r`, in its lock.
unfoldable pub notify_done : ℕ → ℕ → ℕ → World → ℕ × World
notify_done r c err w =
    let k = w.cookie c in
    let p = w.process r in
    let busy' = dec16 k.busy in
    let k' = record k { err = if k.err == 0 then u16 err else k.err; busy = busy' } in
    let p' = if busy' == 0 && is_waited p c then record p { signals = p.signals + 1 } else p in
    (err, set_process (set_cookie w c k') r p')
