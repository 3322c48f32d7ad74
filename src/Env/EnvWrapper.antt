-- ===== src/Env/EnvWrapper.antt =====
-- include/leveldb/env.h: `EnvWrapper`, which forwards every call to another environment.
-- A method is a function on the world `W` that the environment acts on; what it returns and what it
-- writes through its pointer arguments is an `Answer`. A pointer that is passed through (the options
-- of a file, a lock, a function and its argument) is a number.
mod Tests
pub mod Forwarding
use rockscopy.Base.{ℕ, Bytes}

-- The pure virtual methods of `Env`.
pub record Env (W Answer : Type 0) : Type 0 where
  pub new_sequential_file : Bytes → ℕ → W → Answer × W
  pub new_random_access_file : Bytes → ℕ → W → Answer × W
  pub new_writable_file : Bytes → ℕ → W → Answer × W
  pub file_exists : Bytes → W → Answer × W
  pub get_children : Bytes → W → Answer × W
  pub delete_file : Bytes → W → Answer × W
  pub create_dir : Bytes → W → Answer × W
  pub create_dir_if_missing : Bytes → W → Answer × W
  pub delete_dir : Bytes → W → Answer × W
  pub get_file_size : Bytes → W → Answer × W
  pub get_file_modification_time : Bytes → W → Answer × W
  pub rename_file : Bytes → Bytes → W → Answer × W
  pub lock_file : Bytes → W → Answer × W
  pub unlock_file : ℕ → W → Answer × W
  pub schedule : ℕ → ℕ → W → Answer × W
  pub start_thread : ℕ → ℕ → W → Answer × W
  pub get_test_directory : W → Answer × W
  pub new_logger : Bytes → W → Answer × W
  pub now_micros : W → Answer × W
  pub sleep_for_microseconds : ℕ → W → Answer × W
  pub get_host_name : ℕ → W → Answer × W
  pub get_current_time : W → Answer × W
  pub get_absolute_path : Bytes → W → Answer × W
  pub set_background_threads : ℕ → W → Answer × W
  pub time_to_string : ℕ → W → Answer × W

-- `EnvWrapper(target)`.
pub wrap : {W Answer : Type 0} → Env W Answer → Env W Answer
wrap target = record {
  new_sequential_file = λ a b w. target.new_sequential_file a b w;
  new_random_access_file = λ a b w. target.new_random_access_file a b w;
  new_writable_file = λ a b w. target.new_writable_file a b w;
  file_exists = λ a w. target.file_exists a w;
  get_children = λ a w. target.get_children a w;
  delete_file = λ a w. target.delete_file a w;
  create_dir = λ a w. target.create_dir a w;
  create_dir_if_missing = λ a w. target.create_dir_if_missing a w;
  delete_dir = λ a w. target.delete_dir a w;
  get_file_size = λ a w. target.get_file_size a w;
  get_file_modification_time = λ a w. target.get_file_modification_time a w;
  rename_file = λ a b w. target.rename_file a b w;
  lock_file = λ a w. target.lock_file a w;
  unlock_file = λ a w. target.unlock_file a w;
  schedule = λ a b w. target.schedule a b w;
  start_thread = λ a b w. target.start_thread a b w;
  get_test_directory = λ w. target.get_test_directory w;
  new_logger = λ a w. target.new_logger a w;
  now_micros = λ w. target.now_micros w;
  sleep_for_microseconds = λ a w. target.sleep_for_microseconds a w;
  get_host_name = λ a w. target.get_host_name a w;
  get_current_time = λ w. target.get_current_time w;
  get_absolute_path = λ a w. target.get_absolute_path a w;
  set_background_threads = λ a w. target.set_background_threads a w;
  time_to_string = λ a w. target.time_to_string a w;
}
