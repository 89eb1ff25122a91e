-- ===== src/Time.antt =====
-- aos/common/time.{h,cc}: times as seconds and nanoseconds. Signed overflow is undefined in the
-- source, so integers do not wrap here; a failed check of the nanoseconds (LOG(FATAL)) is `none`.
pub mod Arith
pub mod Divide
pub mod Order
pub mod Convert
mod Tests
use miranda_dashboard.Base.{
  ℕ, Option, none, some, Bool, true, false, not, ◌&&◌, ◌||◌, if◌then◌else◌,
}
use miranda_dashboard.Base.Int.{
  ℤ, pos, negsuc, ◌+ℤ◌, ◌-ℤ◌, ◌*ℤ◌, ltb_ℤ, leb_ℤ, eqb_ℤ, tdiv, trem, to_int,
}

abbrev pub nsec_in_sec : ℤ
nsec_in_sec = pos 1000000000

abbrev pub nsec_in_msec : ℤ
nsec_in_msec = pos 1000000

abbrev pub nsec_in_usec : ℤ
nsec_in_usec = pos 1000

abbrev pub msec_in_sec : ℤ
msec_in_sec = pos 1000

abbrev pub usec_in_sec : ℤ
usec_in_sec = pos 1000000

pub record Time : Type 0 where
  pub sec : ℤ
  pub nsec : ℤ

abbrev pub time_zero : Time
time_zero = record { sec = pos 0; nsec = pos 0 }

-- `CheckImpl`
unfoldable pub check_nsec : ℤ → Bool
check_nsec n = not (leb_ℤ nsec_in_sec n || ltb_ℤ n (pos 0))

-- The constructor.
unfoldable pub make_time : ℤ → ℤ → Option Time
unfolding check_nsec
make_time s n = if check_nsec n then some (record { sec = s; nsec = n }) else none

unfoldable pub set_nsec : Time → ℤ → Option Time
unfolding make_time
set_nsec t n = make_time t.sec n

unfoldable pub to_nsec : Time → ℤ
to_nsec t = t.sec *ℤ nsec_in_sec +ℤ t.nsec

unfoldable pub to_usec : Time → ℤ
to_usec t = t.sec *ℤ usec_in_sec +ℤ tdiv t.nsec nsec_in_usec

unfoldable pub to_msec : Time → ℤ
to_msec t = t.sec *ℤ msec_in_sec +ℤ tdiv t.nsec nsec_in_msec

-- A negative count of nanoseconds borrows a second.
abbrev pub borrowed : ℤ → ℤ → Time
borrowed s n =
    if ltb_ℤ n (pos 0)
    then record { sec = s -ℤ pos 1; nsec = n +ℤ nsec_in_sec }
    else record { sec = s; nsec = n }

-- `operator+=`
unfoldable pub add_time : Time → Time → Time
add_time a b =
    let n = a.nsec +ℤ b.nsec in
    let s = a.sec +ℤ b.sec in
    if leb_ℤ nsec_in_sec n
    then record { sec = s +ℤ pos 1; nsec = n -ℤ nsec_in_sec }
    else record { sec = s; nsec = n }

-- `operator-=`
unfoldable pub sub_time : Time → Time → Time
sub_time a b = borrowed (a.sec -ℤ b.sec) (a.nsec -ℤ b.nsec)

-- `operator*=`
unfoldable pub mul_time : Time → ℤ → Time
mul_time t k =
    let temp = t.nsec *ℤ k in
    let n = trem temp nsec_in_sec in borrowed (t.sec *ℤ k +ℤ tdiv (temp -ℤ n) nsec_in_sec) n

-- `operator/=`
unfoldable pub div_time : Time → ℤ → Time
div_time t k = borrowed (tdiv t.sec k) (trem t.sec k *ℤ tdiv nsec_in_sec k +ℤ tdiv t.nsec k)

-- `operator%=`
unfoldable pub mod_time : Time → ℤ → Time
unfolding to_nsec
mod_time t k =
    let n = trem (to_nsec t) k in
    let whole = tdiv k nsec_in_sec in
    let wraps = tdiv n ((whole +ℤ pos 1) *ℤ nsec_in_sec) in
    borrowed (wraps +ℤ whole) (n -ℤ nsec_in_sec *ℤ wraps)

-- The unary `operator-`.
unfoldable pub neg_time : Time → Option Time
unfolding make_time
neg_time t = make_time (pos 0 -ℤ t.sec -ℤ pos 1) (nsec_in_sec -ℤ t.nsec)

unfoldable pub eq_time : Time → Time → Bool
eq_time a b = eqb_ℤ a.sec b.sec && eqb_ℤ a.nsec b.nsec

unfoldable pub lt_time : Time → Time → Bool
lt_time a b = ltb_ℤ a.sec b.sec || (eqb_ℤ a.sec b.sec && ltb_ℤ a.nsec b.nsec)

unfoldable pub gt_time : Time → Time → Bool
gt_time a b = ltb_ℤ b.sec a.sec || (eqb_ℤ a.sec b.sec && ltb_ℤ b.nsec a.nsec)

unfoldable pub le_time : Time → Time → Bool
le_time a b = ltb_ℤ a.sec b.sec || (eqb_ℤ a.sec b.sec && leb_ℤ a.nsec b.nsec)

unfoldable pub ge_time : Time → Time → Bool
ge_time a b = ltb_ℤ b.sec a.sec || (eqb_ℤ a.sec b.sec && leb_ℤ b.nsec a.nsec)

unfoldable pub abs_time : Time → Option Time
unfolding make_time gt_time
abs_time t =
    if gt_time t time_zero
    then some t
    else if eqb_ℤ t.nsec (pos 0)
    then make_time (pos 0 -ℤ t.sec) (pos 0)
    else make_time (pos 0 -ℤ t.sec -ℤ pos 1) (nsec_in_sec -ℤ t.nsec)

unfoldable pub is_within : Time → Time → ℤ → Bool
unfolding to_nsec
is_within a b amount =
    let temp = to_nsec a -ℤ to_nsec b in leb_ℤ temp amount && leb_ℤ (pos 0 -ℤ amount) temp

-- The constructor cuts the seconds from 64 bits to an `int32_t`.
unfoldable pub in_ns : ℤ → Option Time
unfolding make_time to_int
in_ns n =
    if ltb_ℤ n (pos 0)
    then make_time (to_int (tdiv (n -ℤ pos 1) nsec_in_sec -ℤ pos 1))
        (trem (n -ℤ pos 1) nsec_in_sec +ℤ pos 1 +ℤ nsec_in_sec)
    else make_time (to_int (tdiv n nsec_in_sec)) (trem n nsec_in_sec)

unfoldable pub in_us : ℤ → Option Time
unfolding make_time
in_us u =
    if ltb_ℤ u (pos 0)
    then make_time (tdiv (u +ℤ pos 1) usec_in_sec -ℤ pos 1)
        ((trem (u +ℤ pos 1) usec_in_sec -ℤ pos 1) *ℤ nsec_in_usec +ℤ nsec_in_sec)
    else make_time (tdiv u usec_in_sec) (trem u usec_in_sec *ℤ nsec_in_usec)

unfoldable pub in_ms : ℤ → Option Time
unfolding make_time
in_ms m =
    if ltb_ℤ m (pos 0)
    then make_time (tdiv (m +ℤ pos 1) msec_in_sec -ℤ pos 1)
        ((trem (m +ℤ pos 1) msec_in_sec -ℤ pos 1) *ℤ nsec_in_msec +ℤ nsec_in_sec)
    else make_time (tdiv m msec_in_sec) (trem m msec_in_sec *ℤ nsec_in_msec)

unfoldable pub from_rate : ℤ → Option Time
unfolding make_time
from_rate hertz = make_time (pos 0) (tdiv nsec_in_sec hertz)
