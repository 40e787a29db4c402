-- ===== src/Adiru/Tests.antt =====
-- A run of src/main/adiru-nosocket.cpp on the simulated machine, with whole numbers for doubles and a
-- reader of decimal digits for the library's. No client is connected.
use autonomous.Base.{ℕ, ◌≡◌, true, false, some, none, List, [], ◌∷◌}
use autonomous.Base.Int.{ℤ, pos, negsuc}
use autonomous.Sim.{Sim, sim, booted}
use autonomous.Whole.{whole, whole_libm}
use autonomous.Broadcast.{Sockets, new_server}
use autonomous.Bmp390.Calibration.{Calib}
use autonomous.Filter.{Filter}
use autonomous.Gps.{NmeaResult, Gps}
use autonomous.Math.{Quarternion, vec, quat}
use autonomous.Mpu6050.{no_offsets}
use autonomous.Adiru.{Stack, Adiru, tick}
use autonomous.Adiru.Published.{seen, tick-orientation}

instance abbrev pub quiet : Sockets Sim
quiet = record {
  exists_at = λ path w. (false, w);
  unlink = λ path w. (true, w);
  socket = λ w. (some 4, w);
  bind = λ fd path w. (true, w);
  listen = λ fd n w. (true, w);
  epoll_create = λ w. (some 5, w);
  epoll_add = λ e fd events w. (true, w);
  epoll_del = λ e fd w. (true, w);
  epoll_wait = λ e n w. (some [], w);
  accept = λ fd w. (none, w);
  send = λ fd bytes w. (none, w);
  close = λ fd w. w;
  perror = λ w. w;
}

abbrev pub stack : Stack
stack = record {
  mpu6050 = 0 ∷ 0 ∷ 0 ∷ 0 ∷ 0 ∷ 0 ∷ 0 ∷ 0 ∷ 0 ∷ 0 ∷ 0 ∷ 0 ∷ 0 ∷ 0 ∷ [];
  bmp390 = λ i. 0;
  qmc5883 = 0 ∷ 0 ∷ 0 ∷ 0 ∷ 0 ∷ 0 ∷ [];
}

abbrev pub gain : ℕ → Filter ℤ
gain k = record {
  a1 = pos 0;
  a2 = pos 0;
  b0 = pos k;
  b1 = pos 0;
  b2 = pos 0;
  x1 = pos 0;
  x2 = pos 0;
  y1 = pos 0;
  y2 = pos 0;
}

abbrev pub no_result : NmeaResult ℤ
no_result = record {
  useful = false;
  fix = false;
  lng = pos 0;
  lat = pos 0;
  n_sat = pos 0;
  north = false;
  east = false;
}

abbrev pub idle : Gps ℤ
idle = record {
  new_data = false;
  fix = false;
  last_useful_nmea_result = no_result;
  lat = pos 0;
  lng = pos 0;
}

abbrev found : Gps ℤ
found = record idle { new_data = true; fix = true; lat = pos 48; lng = negsuc 10 }

abbrev coefficients : Calib ℤ
coefficients = record {
  t1 = pos 1;
  t2 = pos 2;
  t3 = pos 3;
  p1 = pos 1;
  p2 = pos 2;
  p3 = pos 3;
  p4 = pos 4;
  p5 = pos 5;
  p6 = pos 6;
  p7 = pos 7;
  p8 = pos 8;
  p9 = pos 9;
  p10 = pos 10;
  p11 = pos 11;
}

abbrev level : Quarternion ℤ
level = quat (pos 1) (pos 0) (pos 0) (pos 0)

abbrev tilted : Quarternion ℤ
tilted = quat (pos 1) (pos 2) (pos 3) (pos 4)

abbrev pub adiru : Adiru ℤ
adiru = record {
  mpu6050 = record {
    device = record { fd = some 3; addr = 0x68 };
    offsets = no_offsets;
    accl_scale = pos 16384;
    gyro_scale = pos 131;
  };
  bmp390 = record { fd = some 3; addr = 0x77 };
  calib = coefficients;
  benchmark = pos 101325;
  qmc5883 = record { device = record { fd = some 3; addr = 0x0D }; rng = pos 1 };
  gps_unit = found;
  filters = gain 1 ∷ gain 2 ∷ gain 3 ∷ gain 4 ∷ gain 5 ∷ gain 6 ∷ [];
  orientation = level;
  orientation_euler = vec (pos 0) (pos 0) (pos 0);
  slots = λ i. pos 0;
  server = new_server [] 4 5;
}

abbrev pub board : Sim
board = booted (λ r. r)

abbrev pub bytes_of : ℤ → List ℕ
bytes_of v = 1 ∷ 2 ∷ 3 ∷ 4 ∷ 5 ∷ 6 ∷ 7 ∷ 8 ∷ []

tick-orientation_example :
    seen stack bytes_of (tick stack bytes_of (pos 16) (record adiru { orientation = tilted }) board)
    ≡ seen stack bytes_of (tick stack bytes_of (pos 16) adiru board)
tick-orientation_example = tick-orientation stack bytes_of (pos 16) adiru board tilted
