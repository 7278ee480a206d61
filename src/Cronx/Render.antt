-- ===== src/Cronx/Render.antt =====
-- internal/cronx/iter.go: a wall clock with its offset, "2006-01-02 15:04:05 -07:00", as bytes.
use paceq.Base.{ℕ, ◌+◌, ◌/◌, ◌%◌, not, ◌&&◌, ◌||◌, [], ◌∷◌, ◌++◌}
use paceq.Base.Tests.{if◌then◌else◌, ◌==◌}
use paceq.Base.Bytes.{Bytes}
use paceq.Base.Bytes.{Bytes}
use paceq.Base.Int.{ℤ, pos, pos_part, neg_part, ltb_ℤ}
use paceq.Cronx.Wall.{WallPoint}

unfoldable pub put_two : ℕ → Bytes
put_two v = (b'0' + v / 10 % 10) ∷ (b'0' + v % 10) ∷ []

abbrev year_digits : ℕ → Bytes
year_digits y =
    (b'0' + y / 1000 % 10) ∷ (b'0' + y / 100 % 10) ∷ (b'0' + y / 10 % 10) ∷ (b'0' + y % 10) ∷ []

-- An offset that is cut to nothing keeps the plus sign.
unfoldable pub render_offset : ℤ → Bytes
unfolding put_two
render_offset off =
    let neg = ltb_ℤ off (pos 0) in
    let a = pos_part off + neg_part off in
    let hh = a / 3600 in
    let mm = a % 3600 / 60 in
    let sign = if neg && (not (hh == 0) || not (mm == 0)) then b'-' else b'+' in
    sign ∷ put_two hh ++ (b':' ∷ put_two mm)

-- The two layouts differ in the second, which a requested wall clock does not have.
unfoldable pub render_wall : WallPoint → ℕ → ℤ → Bytes
unfolding put_two render_offset
render_wall w s off =
    year_digits w.y
    ++ (b'-' ∷ put_two w.mo
        ++ (b'-' ∷ put_two w.d
            ++ (b' ' ∷ put_two w.h
                ++ (b':' ∷ put_two w.mi ++ (b':' ∷ put_two s ++ (b' ' ∷ render_offset off))))))
