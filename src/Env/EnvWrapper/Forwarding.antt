-- ===== src/Env/EnvWrapper/Forwarding.antt =====
-- A client of an `EnvWrapper` cannot tell it from the environment that it forwards to.
use rockscopy.Base.{ℕ, Bytes}
use rockscopy.Env.EnvWrapper.{Env}

-- A call of a method with its arguments.
pub data Call : Type 0 where
  new_sequential_file : Bytes → ℕ → Call
  new_random_access_file : Bytes → ℕ → Call
  new_writable_file : Bytes → ℕ → Call
  file_exists : Bytes → Call
  get_children : Bytes → Call
  delete_file : Bytes → Call
  create_dir : Bytes → Call
  create_dir_if_missing : Bytes → Call
  delete_dir : Bytes → Call
  get_file_size : Bytes → Call
  get_file_modification_time : Bytes → Call
  rename_file : Bytes → Bytes → Call
  lock_file : Bytes → Call
  unlock_file : ℕ → Call
  schedule : ℕ → ℕ → Call
  start_thread : ℕ → ℕ → Call
  get_test_directory : Call
  new_logger : Bytes → Call
  now_micros : Call
  sleep_for_microseconds : ℕ → Call
  get_host_name : ℕ → Call
  get_current_time : Call
  get_absolute_path : Bytes → Call
  set_background_threads : ℕ → Call
  time_to_string : ℕ → Call

-- A client: it ends, or it makes a call and goes on by the answer.
pub data Client (Answer R : Type 0) : Type 0 where
  ends : R → Client Answer R
  calls : Call → (Answer → Client Answer R) → Client Answer R

module _ {W Answer : Type 0} where
  pub perform : Env W Answer → Call → W → Answer × W
  perform env (new_sequential_file a b) w = env.new_sequential_file a b w
  perform env (new_random_access_file a b) w = env.new_random_access_file a b w
  perform env (new_writable_file a b) w = env.new_writable_file a b w
  perform env (file_exists a) w = env.file_exists a w
  perform env (get_children a) w = env.get_children a w
  perform env (delete_file a) w = env.delete_file a w
  perform env (create_dir a) w = env.create_dir a w
  perform env (create_dir_if_missing a) w = env.create_dir_if_missing a w
  perform env (delete_dir a) w = env.delete_dir a w
  perform env (get_file_size a) w = env.get_file_size a w
  perform env (get_file_modification_time a) w = env.get_file_modification_time a w
  perform env (rename_file a b) w = env.rename_file a b w
  perform env (lock_file a) w = env.lock_file a w
  perform env (unlock_file a) w = env.unlock_file a w
  perform env (schedule a b) w = env.schedule a b w
  perform env (start_thread a b) w = env.start_thread a b w
  perform env get_test_directory w = env.get_test_directory w
  perform env (new_logger a) w = env.new_logger a w
  perform env now_micros w = env.now_micros w
  perform env (sleep_for_microseconds a) w = env.sleep_for_microseconds a w
  perform env (get_host_name a) w = env.get_host_name a w
  perform env get_current_time w = env.get_current_time w
  perform env (get_absolute_path a) w = env.get_absolute_path a w
  perform env (set_background_threads a) w = env.set_background_threads a w
  perform env (time_to_string a) w = env.time_to_string a w

  pub serve : {R : Type 0} → Env W Answer → Client Answer R → W → R × W
  serve env (ends r) w = (r, w)
  serve env (calls c then) w = let (answer, w') = perform env c w in serve env (then answer) w'
