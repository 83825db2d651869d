-- ===== src/Transfer/Copy.antt =====
-- umpi.cc, `umpi_copy`: a copy between two buffers of one process.
use umpi.Base.{ℕ, ◌≤◌, ◌≡◌, refl, arith, false, ◌&&◌, ltb, ◌==◌, if◌then◌else◌, add32, length}
use umpi.Iovec.{Iovec, is_scattered, is_contiguous, len}
use umpi.World.{World}
use umpi.Transfer.{Kernel, iov, bytes_of, place}
use umpi.Transfer.Delivery.{load, store, load-store, length-load}

-- After the copy by the system call.
abbrev pub copied : ℕ → ℕ × (ℕ → ℕ → ℕ) → World → ℕ × World
copied total (moved, m) w = (if total == moved then total else 0, record w { memory = m })

-- `umpi_copy` by the process `me`: the bytes copied, and the world. The `memcpy` is between areas
-- that do not overlap.
unfoldable pub umpi_copy : Kernel → ℕ → ℕ → Iovec → ℕ → ℕ → ℕ → Iovec → ℕ → ℕ → World → ℕ × World
umpi_copy kernel me read_buf read_iovec read_count read_skip write_buf write_iovec write_count
      write_seek w =
    let total = bytes_of read_count read_iovec in
    let pid = (w.process me).pid in
    if ltb (bytes_of write_count write_iovec) total
    then (0, w)
    else (if is_contiguous read_iovec && is_contiguous write_iovec
        then (
          total,
          record w {
            memory =
                store w.memory pid (place write_buf write_seek (len write_iovec))
                  (load w.memory pid (place read_buf read_skip (len read_iovec)) total);
          },
        )
        else copied total
            (kernel.writev pid pid
              (iov read_buf read_iovec read_skip (add32 read_skip read_count) total)
              (iov write_buf write_iovec write_seek (add32 write_seek write_count) total) w.memory)
            w)

-- Between contiguous buffers, if the bytes to read are no more than those to write, `umpi_copy`
-- reports all bytes, and they are then at the place to write as they were at the place to read.
pub umpi_copy-load :
    (kernel : Kernel) (me from : ℕ) (v : Iovec) (n skip to : ℕ) (u : Iovec) (k seek : ℕ) (w : World)
    → is_scattered v ≡ false
    → is_scattered u ≡ false
    → bytes_of n v ≤ bytes_of k u
    → let pid = (w.process me).pid in
      let r = umpi_copy kernel me from v n skip to u k seek w in
      (r.0 ≡ bytes_of n v)
      × (load r.1.memory pid (place to seek (len u)) (bytes_of n v)
          ≡ load w.memory pid (place from skip (len v)) (bytes_of n v))
unfolding umpi_copy is_contiguous
umpi_copy-load kernel me from v n skip to u k seek w flat flat' room =
    let pid = (w.process me).pid in
    let fits : ltb (bytes_of k u) (bytes_of n v) ≡ false = ground (arith, room) in
    let bytes = load w.memory pid (place from skip (len v)) (bytes_of n v) in
    let back = load-store bytes w.memory pid (place to seek (len u)) in
    let all : length bytes ≡ bytes_of n v =
      length-load w.memory pid (place from skip (len v)) (bytes_of n v) in
    rw (fits, flat, flat') (refl, rw all at back)
