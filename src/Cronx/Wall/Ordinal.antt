-- ===== src/Cronx/Wall/Ordinal.antt =====
-- A place in the timetable stands for one minute of the wall clock.
use paceq.Base.{◌+◌, ◌*◌, ◌/◌, ◌%◌, ◌<◌, ◌≡◌, sym, ap, ◌∙◌, arith}
use paceq.Cronx.Wall.{WallPoint, wall_ordinal, wall_point_of}
use paceq.Cronx.Wall.Days.{last_day_bounds}
use paceq.Cronx.Wall.Carry.{IsWall}

-- The minute that a place stands for is read back from it, for every minute of the calendar.
pub wall_point_of-wall_ordinal : (w : WallPoint) → IsWall w → wall_point_of (wall_ordinal w) ≡ w
unfolding wall_point_of wall_ordinal
wall_point_of-wall_ordinal w h =
    let (_, short) = last_day_bounds w.y w.mo in
    let day : w.d < 32 = omega (arith, h.date.to_last) in
    let month : w.mo < 16 = omega (arith, h.date.to_december) in
    let hour : w.h < 24 = h.hour in
    let minute : w.mi < 60 = h.minute in
    let ord = (((w.y * 16 + w.mo) * 32 + w.d) * 24 + w.h) * 60 + w.mi in
    let minutes : ord / 60 ≡ ((w.y * 16 + w.mo) * 32 + w.d) * 24 + w.h = omega arith in
    let hours : ord / 60 / 24 ≡ (w.y * 16 + w.mo) * 32 + w.d = omega arith in
    let days : ord / 60 / 24 / 32 ≡ w.y * 16 + w.mo = omega arith in
    let y : ord / 60 / 24 / 32 / 16 ≡ w.y = omega arith in
    let mo : ord / 60 / 24 / 32 % 16 ≡ w.mo = omega arith in
    let d : ord / 60 / 24 % 32 ≡ w.d = omega arith in
    let h' : ord / 60 % 24 ≡ w.h = omega arith in
    let mi : ord % 60 ≡ w.mi = omega arith in
    λ i. record { y = y i; mo = mo i; d = d i; h = h' i; mi = mi i }

pub wall_ordinal_injective :
    (u v : WallPoint) → IsWall u → IsWall v → wall_ordinal u ≡ wall_ordinal v → u ≡ v
wall_ordinal_injective u v hu hv h =
    sym (wall_point_of-wall_ordinal u hu) ∙ (ap wall_point_of h ∙ wall_point_of-wall_ordinal v hv)
