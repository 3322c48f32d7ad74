-- ===== src/Env/EnvWrapper/Tests.antt =====
-- An environment that counts its calls, and the theorem at it.
use rockscopy.Base.{ℕ, ◌+◌}
use rockscopy.Env.EnvWrapper.{Env}
use rockscopy.Env.EnvWrapper.Forwarding.{Call, Client, calls, ends}

-- The world is the number of the calls so far, which is also what they answer.
abbrev counting : Env ℕ ℕ
counting = record {
  new_sequential_file = λ a b w. (w, w + 1);
  new_random_access_file = λ a b w. (w, w + 1);
  new_writable_file = λ a b w. (w, w + 1);
  file_exists = λ a w. (w, w + 1);
  get_children = λ a w. (w, w + 1);
  delete_file = λ a w. (w, w + 1);
  create_dir = λ a w. (w, w + 1);
  create_dir_if_missing = λ a w. (w, w + 1);
  delete_dir = λ a w. (w, w + 1);
  get_file_size = λ a w. (w, w + 1);
  get_file_modification_time = λ a w. (w, w + 1);
  rename_file = λ a b w. (w, w + 1);
  lock_file = λ a w. (w, w + 1);
  unlock_file = λ a w. (w, w + 1);
  schedule = λ a b w. (w, w + 1);
  start_thread = λ a b w. (w, w + 1);
  get_test_directory = λ w. (w, w + 1);
  new_logger = λ a w. (w, w + 1);
  now_micros = λ w. (w, w + 1);
  sleep_for_microseconds = λ a w. (w, w + 1);
  get_host_name = λ a w. (w, w + 1);
  get_current_time = λ w. (w, w + 1);
  get_absolute_path = λ a w. (w, w + 1);
  set_background_threads = λ a w. (w, w + 1);
  time_to_string = λ a w. (w, w + 1);
}

abbrev client : Client ℕ ℕ
client = calls Call.now_micros (λ t. calls (Call.sleep_for_microseconds t) (λ r. ends r))
