-- ===== src/Modules/StaticFiles/Inside.antt =====
-- What can be served lies under the root.
use garcon.Prelude.{
  ℕ, ◌≡◌, ◌≢◌, ◌≤◌, refl, ap, sym, ◌∙◌, true, false, Bool, Bool-cases, inl, inr, Option, none, some,
  Option-cases, [], ◌++◌, All, ok, ◌>>=◌, >>=-eq-ok, subst, arith, if◌then◌else◌, ltb,
}
use garcon.Text.{Bytes, bytes, equal}
use garcon.Text.Search.{equal_iff}
use garcon.Http.Request.{Request}
use garcon.Http.Response.{Response}
use garcon.Modules.StaticFiles.{
  FilePath, FileSystem, max_file_bytes, map_to_relative_path, is_within_root, resolve_under_root,
  file_head, read_file_bytes, with_body, sized_file, regular_file, resolved_file, serve_file,
  handle, not_found, too_large, not_allowed, checked_within,
}
use garcon.Modules.StaticFiles.Names.{
  IsName, IsUnder, is_within_root-IsUnder, map_to_relative_path-IsName, nonempty, apart,
}

module _ (system : FileSystem) (root : FilePath) where
  -- The file that a target means: the system resolves it to a path under the root, which is that of
  -- a regular file that is not too large.
  pub record IsFile (target : Bytes) (resolved : FilePath) (size : ℕ) : Type 0 where
    pub relative : FilePath
    pub mapped_target : map_to_relative_path target ≡ some relative
    pub names : All IsName relative
    pub resolved_path : system.canonical (root ++ relative) ≡ some resolved
    pub under : IsUnder root resolved
    pub regular : system.is_regular_file resolved ≡ ok true
    pub sized : system.file_size resolved ≡ ok size
    pub small : size ≤ max_file_bytes

  -- An answer without a file, or a file's head, with the bytes that were read where they were asked for.
  pub data IsAnswer (target : Bytes) : Bool → Response → Type 0 where
    missing : {include_body : Bool} → IsAnswer target include_body not_found
    oversize : {include_body : Bool} → IsAnswer target include_body too_large
    head :
        (resolved : FilePath) (size : ℕ)
        → IsFile target resolved size
        → IsAnswer target false (file_head system root resolved size)
    body :
        (resolved : FilePath) (size : ℕ) (content : Bytes)
        → IsFile target resolved size
        → read_file_bytes system root resolved size ≡ some content
        → IsAnswer target true (record (file_head system root resolved size) { body = content })

  with_body-IsAnswer :
      (target : Bytes) (resolved : FilePath) (size : ℕ) (o : Option Bytes)
      → read_file_bytes system root resolved size ≡ o
      → IsFile target resolved size
      → IsAnswer target true (with_body system root (file_head system root resolved size) o)
  with_body-IsAnswer target resolved size none e f = missing
  with_body-IsAnswer target resolved size (some content) e f = body resolved size content f e

  sized_file-IsAnswer :
      (target : Bytes) (resolved : FilePath) (include_body : Bool) (size : ℕ)
      → (size ≤ max_file_bytes → IsFile target resolved size)
      → IsAnswer target include_body (sized_file system root resolved include_body size)
  unfolding sized_file
  sized_file-IsAnswer target resolved include_body size f =
      elim (Bool-cases (ltb max_file_bytes size)) [
        | inl large ↦ rw large oversize
        | inr small ↦ rw small (go include_body (f (ground arith)))
      ]
    where
      go :
          (b : Bool)
          → IsFile target resolved size
          → IsAnswer target b (
              if b
              then with_body system root
                  (file_head system root resolved size)
                  (read_file_bytes system root resolved size)
              else file_head system root resolved size)
      go true f =
          with_body-IsAnswer target resolved size (read_file_bytes system root resolved size) refl f
      go false f = head resolved size f

  regular_file-IsAnswer :
      (target : Bytes) (resolved : FilePath) (include_body regular : Bool) (resp : Response)
      → ((size : ℕ)
          → regular ≡ true
          → system.file_size resolved ≡ ok size
          → size ≤ max_file_bytes
          → IsFile target resolved size)
      → regular_file system root resolved include_body regular ≡ ok resp
      → IsAnswer target include_body resp
  unfolding regular_file
  regular_file-IsAnswer target resolved include_body false resp f h =
      let e : not_found ≡ resp = cc in subst (IsAnswer target include_body) e missing
  regular_file-IsAnswer target resolved include_body true resp f h =
      let (size, s, h1) = >>=-eq-ok (system.file_size resolved) _ h in
      let e : sized_file system root resolved include_body size ≡ resp = cc in
      subst (IsAnswer target include_body) e
        (sized_file-IsAnswer target resolved include_body size (λ l. f size refl s l))

  resolved_file-IsAnswer :
      (target : Bytes) (relative : FilePath) (include_body : Bool) (resp : Response)
      → map_to_relative_path target ≡ some relative
      → resolved_file system root include_body
          (checked_within root (system.canonical (root ++ relative)))
        ≡ ok resp
      → IsAnswer target include_body resp
  unfolding resolved_file
  resolved_file-IsAnswer target relative include_body resp m h =
      elim (Option-cases (system.canonical (root ++ relative))) [
        | inl e ↦ absent (rw e at h)
        | inr (resolved, e) ↦ elim (Bool-cases (is_within_root root resolved)) [
          | inl w ↦ elim (Bool-cases (system.entry_error resolved)) [
            | inl r ↦ absent (rw (e, w, r) at h)
            | inr r ↦
                let k : (system.is_regular_file resolved >>= λ g.
                regular_file system root resolved include_body g)
                    ≡ ok resp =
                  rw (e, w, r) at h in
                let (g, i, k1) = >>=-eq-ok (system.is_regular_file resolved) _ k in
                regular_file-IsAnswer target resolved include_body g resp
                  (λ size t s l. record {
                    relative = relative;
                    mapped_target = m;
                    names = map_to_relative_path-IsName target relative m;
                    resolved_path = e;
                    under = is_within_root-IsUnder root resolved w;
                    regular = i ∙ ap ok t;
                    sized = s;
                    small = l;
                  })
                  k1
          ]
          | inr w ↦ absent (rw (e, w) at h)
        ]
      ]
    where
      absent : ok not_found ≡ ok resp → IsAnswer target include_body resp
      absent h = let e : not_found ≡ resp = cc in subst (IsAnswer target include_body) e missing

  serve_file-IsAnswer :
      (target : Bytes) (include_body : Bool) (resp : Response)
      → root ≢ []
      → serve_file system root target include_body ≡ ok resp
      → IsAnswer target include_body resp
  unfolding serve_file resolve_under_root
  serve_file-IsAnswer target include_body resp n h =
      elim (Option-cases (map_to_relative_path target)) [
        | inl e ↦
            let k : ok not_found ≡ ok resp = rw e at h in
            let g : not_found ≡ resp = cc in subst (IsAnswer target include_body) g missing
        | inr (relative, e) ↦
            resolved_file-IsAnswer target relative include_body resp e
              (rw (e, nonempty root n) at h)
      ]

  -- What a request has as its answer.
  pub data IsServed (req : Request) (resp : Response) : Type 0 where
    refused :
        req.method ≢ bytes "GET"
        → req.method ≢ bytes "HEAD"
        → resp ≡ not_allowed
        → IsServed req resp
    got : req.method ≡ bytes "GET" → IsAnswer req.target true resp → IsServed req resp
    headed : req.method ≡ bytes "HEAD" → IsAnswer req.target false resp → IsServed req resp

  -- Under a root that is not the empty path, every answer that is returned is one of the three errors, or the head of a file that the
  -- system finds at the request's path under the root, whose own path is under the root, and that is
  -- a regular file within the limit, with the bytes that were read for a GET and none for a HEAD.
  pub handle-IsServed :
      (req : Request) (resp : Response)
      → root ≢ []
      → handle system root req ≡ ok resp
      → IsServed req resp
  unfolding handle
  handle-IsServed req resp n h = elim (Bool-cases (equal req.method (bytes "GET"))) [
    | inl g ↦
        got ((equal_iff req.method (bytes "GET")).0 g)
          (serve_file-IsAnswer req.target true resp n (rw g at h))
    | inr g ↦ elim (Bool-cases (equal req.method (bytes "HEAD"))) [
      | inl d ↦
          headed ((equal_iff req.method (bytes "HEAD")).0 d)
            (serve_file-IsAnswer req.target false resp n (rw (g, d) at h))
      | inr d ↦
          let k : ok not_allowed ≡ ok resp = rw (g, d) at h in
          refused (λ q. apart req.method (bytes "GET") q g)
            (λ q. apart req.method (bytes "HEAD") q d) (let e : not_allowed ≡ resp = cc in sym e)
    ]
  ]
