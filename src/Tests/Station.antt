-- ===== src/Tests/Station.antt =====
-- Concrete runs of tools/station_sim.c.
use io_t_collector.Base.{◌≡◌, refl, arith, true}
use io_t_collector.Simulator.{
  Draw, profile_init, clamped_add, normal_fields, fill_normal_frame, auto_inject,
}
use io_t_collector.Simulator.Inject.{Judged, IsDrawn, auto_inject_overflow}

abbrev some_draw : Draw
some_draw = record {
  sec = 1700000000;
  ms = 250;
  temperature = 215;
  humidity = 480;
  rand_pm25 = 7;
  rand_pm10 = 100;
  rand_co = 3;
  rand_noise = 39;
}

low_end : clamped_add 5 2 10 999 ≡ 0
unfolding clamped_add
low_end = refl

some_draw-IsDrawn : IsDrawn (profile_init 9) some_draw
unfolding normal_fields profile_init clamped_add
some_draw-IsDrawn = ground arith

auto_inject_overflow_example :
    Judged
      (auto_inject
        (fill_normal_frame (profile_init 9) 0 some_draw).0
        (fill_normal_frame (profile_init 9) 0 some_draw).1
        191
        12)
      true
auto_inject_overflow_example =
    auto_inject_overflow (profile_init 9) some_draw 191 12 some_draw-IsDrawn (omega arith)
      (omega arith)
