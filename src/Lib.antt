-- ===== src/Lib.antt =====
-- A verification library for the drivers and message handlers of the flight computer in this
-- repository: models of the C++ sources in antt, and the theorems that make them correct.
--
-- The program. Four devices hang on the I2C bus of a single-board computer: an inertial sensor
-- (MPU6050), a barometric pressure sensor (BMP390), a magnetometer (QMC5883) and a 16-channel
-- PWM driver (PCA9685), which drives the motors and the lights. src/backend/i2c.cpp makes a
-- register read, a burst read or a register write out of a transfer of the kernel; each driver
-- keeps an `i2c::device` and its own parameters in static variables and is called by the main
-- loops under src/main, which read the sensors at a fixed rate, publish the readings, and set
-- the throttles of the motors from the messages that they receive.
--
-- The files.
--   I2c          src/backend/i2c.cpp, include/backend/i2c.h: `read_byte`, `read_burst`, `write_byte`,
--                the constructor (`open_device`) and `close`. I2c/Bank is the interface that the
--                drivers use of a device whose registers keep what is written, I2c/Fields reads
--                registers as bit fields.
--   Pca9685      src/backend/pca9685.cpp, include/backend/pca9685.h: every call by its name. Channels:
--                the table `pwm_regs` against the header; Duty: the pulse; Clock: the prescaler.
--   Bmp390       src/backend/bmp390.cpp, include/backend/bmp390.h and bmp390_macros.h: the calls that
--                configure the sensor. Calibration: `acquire_calib_vars`; Compensation: the formulas
--                of temperature, pressure and height; Measure: the readings; Fifo: `read_fifo` and
--                `read_fifo_wo_height`.
--   Mpu6050      src/backend/mpu6050.cpp, include/backend/mpu6050.h: configuration and readings.
--                Calibrate: the control loop that finds the offsets.
--   Qmc5883      src/backend/qmc5883.cpp, include/backend/qmc5883.h: the magnetometer. Sample: the
--                readings; Control: its registers as bit fields.
--   Tokenizer    src/util/str_utils.cpp: `next_token`. Fields: one call on a string of fields; Runs:
--                calls after each other.
--   Motor        src/main/motor_controller.cpp: start-up, arming and the message handler; Messages:
--                what it does with the fields of a message; Loop: `main` as a whole, with the broker and
--                the arrivals (Starts: that the start-up succeeds; Last: the speed that is left at the
--                end); Speeds: the duty cycles of the motors.
--   Broadcast    src/util/server.cpp: `broadcast_server`. Listeners: the set of listeners against the
--                polling structure; Delivery: what `broadcast` sends.
--   Socket       src/backend/socket.cpp, include/backend/socket.h: sockets and connections over the system
--                calls. Address: what the kernel reads in an address; Reach: a client and a server.
--   Gps          src/backend/gps.cpp, include/backend/gps.h: the parser of NMEA lines and what the
--                receiver's thread publishes. Sentence: a sentence with a position; Empty: one without;
--                Thread: `init` and the loop that reads the port (Lines: on a port that delivers lines).
--   Math         src/math/math.cpp, include/math/math.h: vectors and quaternions. Quarternions: products
--                and conjugates; Rotation: turning vectors; Turn: in which direction; Euler: `fromEulerZYX`
--                as three turns; Attitude: `toEuler` after it.
--   Timer        src/util/timer.cpp: `create_timer`. Pace: how often it calls; Ends: when it ends.
--   Adiru        src/main/adiru-nosocket.cpp: `tick`, with the state of the drivers, the filters, the
--                receiver and the server. Slots: the layout of `data`; Published: what is sent. Start:
--                `main`, from the configuration of the sensors to the main loop; Start/Settings: what the
--                registers hold behind its setters; Start/Run: the main loop with the receiver's thread,
--                as a sequence of ticks and of lines from the port (Layout: what is sent keeps to the
--                layout; Position: it has the position that was read last).
--                Mqtt: src/main/adiru.cpp, the older main loop, which publishes to the broker (Heard:
--                what the guidance reads of its messages).
--   Monitor      src/main/monitor.cpp: `cli_table`. Buffer: the bytes that its calls add; Display: the
--                tables, `tick` and the logger (Room: no buffer overflows; Log: the messages);
--                Received: the payload of the ADIRU; Link: the connection to the ADIRU, which is
--                made again when it is lost (Whole: that `data` is whole throughout).
--   Guidance     src/guidance/auto_com.cpp: the search for the centre of mass. Thrust: its messages at the
--                motor controller; Messages: what it reads; Bracket: the range of the search.
--   Filter       src/math/filter.cpp, include/math/filter.h: filters of second order. Recurrence: the
--                outputs against the difference equation.
-- Helpers: Base (tests, lists, bits, integers and the machine's `int`), Double (the operations of
-- `double`; Double/Exact: doubles whose sums and products are exact), Sim (a simulated machine with
-- one device), Decimal (a reader of digits) and Whole (whole numbers in the place of doubles); the
-- last three serve the tests, which stand in the modules called Tests.
--
-- State and errors. The world behind the system calls is a type W, and the system calls are the
-- fields of records (`I2c.Linux`, `Broadcast.Sockets`, `Socket.Kernel` and others); a call takes
-- the world and returns it changed. Static variables are records (`Pca`, `Mpu`, `Calib`) that the
-- calls take and return. A transfer that fails is `none`, as is a call that divides by zero or reads outside
-- `pwm_regs`; where an array on the stack is read before it was written, or one past its end,
-- the value is an argument (`memory`, `buf`).
--
-- Numbers. Bytes are natural numbers below 256 and `int` is an integer that wraps at 32 bits
-- (Base/Machine). The operations on `double` are a parameter without laws, so that what is
-- proved of a formula is which operations are done in which order; `Double.Libm` has the calls
-- of the C library. The rounding in `set_frequency`, whose quotient a double represents closely
-- enough for the comparison with one half, is done on the exact quotient. The algebra of Math is
-- proved for doubles whose sums and products are exact (`Double.Exact.IsExact`, a commutative ring),
-- which the theorems name as a hypothesis, with the laws of sine and cosine where they
-- are needed (`Math.Attitude.IsTrig`).
--
-- Loops. The FIFO loops run on fuel, for which the length that the device reports is enough,
-- since every frame advances; the calibration runs its counted loops by structural recursion. A timer
-- that ends runs on fuel, for which one more than the work that is left is enough, and one that does
-- not end is followed for a number of rounds. The loops of Guidance that wait for messages run on fuel
-- too; how many messages the craft needs to tip over or to come to rest is not in the code.
-- The thread of Gps is followed for a number of turns, as is the loop of the monitor; the attempts to
-- connect to the ADIRU run on fuel, for which one more than the number of failures before a success is
-- enough. The main loops of the motor controller and of the ADIRU take the list of what arrives.
--
-- Not modelled: output and formatting, the vendored libraries (include/fmt, include/mqtt,
-- include/extern), and the programs that only print readings. Of the monitor, the terminal's
-- settings, the keyboard's thread and `draw_power_bar` are left out. The receiver's thread and the
-- main loop interleave by whole steps: a line is never read in the middle of a tick.
pub mod Base
pub mod Adiru
pub mod Bmp390
pub mod Broadcast
pub mod Decimal
pub mod Double
pub mod Filter
pub mod Gps
pub mod Guidance
pub mod I2c
pub mod Math
pub mod Monitor
pub mod Motor
pub mod Mpu6050
pub mod Pca9685
pub mod Qmc5883
pub mod Sim
pub mod Socket
pub mod Timer
pub mod Tokenizer
pub mod Whole
