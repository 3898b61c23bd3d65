-- ===== src/App/CommandLine/Finished.antt =====
-- What options become.
use garcon.Prelude.{
  ℕ, ◌≡◌, Bool, true, false, Option, none, some, arith, ◌≤◌, ◌<◌, ◌^◌, ◌⊎◌, inl, ok, throw_if,
  if◌then◌else◌, >>=-eq-ok, subst,
}
use garcon.App.CommandLine.{
  FilePath, Outside, ServerConfig, CliOptions, https_requested, has_value, value_or, differ,
  default_worker_threads, default_queue_capacity, default_www_root, default_module_config_dir,
  finalized, finalize_options,
}
use garcon.App.CommandLine.Numbers.{IsPort, IsCount, IfSet, IsInRange}

-- The port, the number of workers and, below 2^58 workers, the capacity of the queue are in their
-- ranges.
abbrev pub IsChecked : ServerConfig → Type 0
IsChecked c =
    IsPort c.port
    × IsCount c.worker_threads
    × ((1 ≤ c.connection_queue_capacity) ⊎ (2 ^ 58 ≤ c.worker_threads))

value_or-IsPort :
    (o : Option ℕ) (b : Bool) → IfSet IsPort o → IsPort (value_or o (if b then 8443 else 8080))
value_or-IsPort none true h = (omega arith, omega arith)
value_or-IsPort none false h = (omega arith, omega arith)
value_or-IsPort (some n) b h = h

value_or-IsCount :
    (outside : Outside) (o : Option ℕ)
    → outside.hardware_concurrency < 2 ^ 32
    → IfSet IsCount o
    → IsCount (value_or o (default_worker_threads outside))
unfolding default_worker_threads
value_or-IsCount outside none b h = (ground arith, ground arith)
value_or-IsCount outside (some n) b h = h

capacity_positive :
    (o : Option ℕ) (workers : ℕ)
    → 1 ≤ workers
    → IfSet IsCount o
    → (1 ≤ value_or o (default_queue_capacity workers)) ⊎ (2 ^ 58 ≤ workers)
unfolding default_queue_capacity
capacity_positive none workers p h = omega arith
capacity_positive (some n) workers p h = inl h.0

pub finalize_options-IsChecked :
    (outside : Outside) (opts : CliOptions) (program_path : FilePath) (c : ServerConfig)
    → outside.hardware_concurrency < 2 ^ 32
    → IsInRange opts
    → finalize_options outside opts program_path ≡ ok c
    → IsChecked c
unfolding finalize_options
finalize_options-IsChecked outside opts program_path c b h e =
    let (u, _, e1) =
      >>=-eq-ok
        (throw_if
          (differ (has_value opts.tls_certificate_file) (has_value opts.tls_private_key_file)) _)
        _ e in
    let (www_root, _, e2) = >>=-eq-ok (default_www_root outside) _ e1 in
    let (config_dir, _, e3) = >>=-eq-ok (default_module_config_dir outside program_path) _ e2 in
    let workers = value_or-IsCount outside opts.worker_threads b h.1 in
    let g : finalized outside opts www_root config_dir ≡ c = cc in
    subst IsChecked g (
      value_or-IsPort opts.port (https_requested opts) h.0,
      workers,
      capacity_positive opts.connection_queue_capacity _ workers.0 h.2,
    )
