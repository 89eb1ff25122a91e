-- ===== src/WrappingCounter/Tests.antt =====
-- A counter that wraps twice.
use miranda_dashboard.Base.{◌≡◌, [], ◌∷◌, arith, refl}
use miranda_dashboard.Base.Int.{pos, ◌+ℤ◌}
use miranda_dashboard.WrappingCounter.{update, new_wrapping_counter}
use miranda_dashboard.WrappingCounter.Tracks.{tracking, update_all, Gains, update_all-tracking}

after_wrap : update (update (new_wrapping_counter (pos 0)) 200) 10 ≡ tracking 266
unfolding update ◌+ℤ◌
after_wrap = refl

some-Gains : Gains 0 (200 ∷ 266 ∷ 266 ∷ 515 ∷ [])
some-Gains = omega arith

update_all-tracking_example : update_all (tracking 0) (200 ∷ 266 ∷ 266 ∷ 515 ∷ []) ≡ tracking 515
update_all-tracking_example = update_all-tracking 0 (200 ∷ 266 ∷ 266 ∷ 515 ∷ []) some-Gains
