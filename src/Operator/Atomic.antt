-- ===== src/Operator/Atomic.antt =====
-- Updates of the status under conflicts with other writers
-- (holmes_operator/scheduler/job_executor.py, `_patch_status_with_retry`).
use canis.Prelude.{
  ℕ, zero, suc, ◌*◌, ◌<◌, true, false, ◌==◌, ◌≡◌, ◌≢◌, refl, ap, ◌∙◌, ◌⊎◌, inl, inr, Option, none,
  some, if◌then◌else◌, arith, Text, codes,
}
use canis.Operator.Status.{
  Status, StatusUpdates, Resource, Reply, ok, api_exception, exception, KubeApi, Attempt, ended,
  conflict, refused, attempt, attempts, patch_status_with_retry,
}

-- A merge patch keeps what the updates do not name.
abbrev pub kept : {A : Type 0} → A → Option A → A
kept a none = a
kept a (some b) = b

abbrev pub kept_option : {A : Type 0} → Option A → Option A → Option A
kept_option a none = a
kept_option a (some b) = some b

abbrev pub merged : StatusUpdates → Status → Status
merged u s = record {
  active = u.active;
  history = kept s.history u.history;
  last_schedule_time = kept_option s.last_schedule_time u.last_schedule_time;
  last_result = kept_option s.last_result u.last_result;
  message = kept_option s.message u.message;
  last_successful_time = kept_option s.last_successful_time u.last_successful_time;
}

pub Reply-cases :
    {A : Type 0} (r : Reply A)
    → ((a : A) × (r ≡ ok a))
      ⊎ (((code : ℕ) × (r ≡ api_exception code)) ⊎ ((e : Text) × (r ≡ exception e)))
Reply-cases (ok a) = inl (a, refl)
Reply-cases (api_exception code) = inr (inl (code, refl))
Reply-cases (exception e) = inr (inr (e, refl))

pub Attempt-cases :
    {K : Type 0} (a : Attempt K)
    → ((r : Reply (Unit {0})) × ((k : K) × (a ≡ ended r k))) ⊎ ((k : K) × (a ≡ conflict k))
Attempt-cases (ended r k) = inl (r, (k, refl))
Attempt-cases (conflict k) = inr (k, refl)

module _ {K : Type 0} (api : KubeApi K) where
  -- The optimistic concurrency that Kubernetes documents, with the resource that a state holds:
  -- a read returns a version of the resource, a patch is accepted only if its version is the
  -- current one, and then changes the status that this version has.
  pub record IsVersioned (current : K → Resource) : Type 0 where
    pub version_status :
        (k : K) (r : Resource)
        → (api.get_scheduled k).0 ≡ ok r
        → r.version ≡ (current (api.get_scheduled k).1).version
        → r.status ≡ (current (api.get_scheduled k).1).status
    pub accepted_version :
        (k : K) (v : Text) (u : StatusUpdates)
        → (api.patch_status v u k).0 ≡ ok tt
        → v ≡ (current k).version
    pub accepted_status :
        (k : K) (v : Text) (u : StatusUpdates)
        → (api.patch_status v u k).0 ≡ ok tt
        → (current (api.patch_status v u k).1).status ≡ merged u (current k).status

  -- What happens before a patch is accepted: reads, patches that are not accepted, and sleep.
  pub data Waiting : K → K → Type 0 where
    start : {k : K} → Waiting k k
    read : {j k : K} → Waiting j k → Waiting j (api.get_scheduled k).1
    rejected :
        {j k : K} (v : Text) (u : StatusUpdates)
        → (api.patch_status v u k).0 ≢ ok tt
        → Waiting j k
        → Waiting j (api.patch_status v u k).1
    slept : {j k : K} (n : ℕ) → Waiting j k → Waiting j (api.sleep n k)

  -- One patch was accepted, after which nothing happened, with the updates that `modify` computes
  -- from the status which the patch found.
  pub record Applied (current : K → Resource) (modify : Text → Status → StatusUpdates) (j k : K)
      : Type 0 where
    pub before : K
    pub time : Text
    pub version : Text
    pub status : Status
    pub found : status ≡ (current before).status
    pub waited : Waiting j before
    pub accepted : (api.patch_status version (modify time status) before).0 ≡ ok tt
    pub last : k ≡ (api.patch_status version (modify time status) before).1
    pub result :
        (current k).status ≡ merged (modify time (current before).status) (current before).status

  -- What one attempt leaves.
  abbrev Attempted : (K → Resource) → (Text → Status → StatusUpdates) → K → Attempt K → Type 0
  Attempted current modify j (ended r k) = r ≡ ok tt → Applied current modify j k
  Attempted current modify j (conflict k) = Waiting j k

module _ {K : Type 0} (api : KubeApi K) (current : K → Resource)
    (laws : IsVersioned api current) where
  refused-Attempted :
      (modify : Text → Status → StatusUpdates) (j k : K) (code : ℕ)
      → Waiting api j k
      → Attempted api current modify j (refused api code k)
  unfolding refused
  refused-Attempted modify j k code w =
      elim (code == 409)
        as (λ b.
          Attempted api current modify j (if b then conflict k else ended (api_exception code) k)) [
            | true ↦ w
            | false ↦ λ e. absurd (ground arith)
          ]

  accepted-Applied :
      (modify : Text → Status → StatusUpdates) (time : Text) (r : Resource) (j k : K)
      → Waiting api j k
      → (api.get_scheduled k).0 ≡ ok r
      → (api.patch_status r.version (modify time r.status) (api.get_scheduled k).1).0 ≡ ok tt
      → Applied api current modify j
          (api.patch_status r.version (modify time r.status) (api.get_scheduled k).1).1
  accepted-Applied modify time r j k w got accepted =
      let same =
        laws.version_status k r got (
          laws.accepted_version (api.get_scheduled k).1 r.version (modify time r.status)
            accepted) in
      record {
        before = (api.get_scheduled k).1;
        time = time;
        version = r.version;
        status = r.status;
        found = same;
        waited = read w;
        accepted = accepted;
        last = refl;
        result =
            laws.accepted_status (api.get_scheduled k).1 r.version (modify time r.status) accepted
            ∙ ap (λ s. merged (modify time s) (current (api.get_scheduled k).1).status) same;
      }

  attempt-Attempted :
      (modify : Text → Status → StatusUpdates) (j k : K)
      → Waiting api j k
      → Attempted api current modify j (attempt api modify k)
  unfolding attempt
  attempt-Attempted modify j k w = elim (Reply-cases (api.get_scheduled k).0) [
    | inl (r, got) ↦
        let v = r.version in
        let time = api.iso (api.now (api.get_scheduled k).1) in
        let k1 = (api.get_scheduled k).1 in
        rw (attempt, got)
          (elim (Reply-cases (api.patch_status v (modify time r.status) k1).0) [
            | inl (u, fine) ↦
                rw (attempt, fine) (λ e. accepted-Applied modify time r j k w got fine)
            | inr (inl (code, bad)) ↦
                rw (attempt, bad)
                  (refused-Attempted modify j _ code
                    (rejected v (modify time r.status) (λ e. absurd (ground arith)) (read w)))
            | inr (inr (e, bad)) ↦ rw (attempt, bad) (λ e. absurd (ground arith))
          ])
    | inr (inl (code, bad)) ↦ rw (attempt, bad) (refused-Attempted modify j _ code (read w))
    | inr (inr (e, bad)) ↦ rw (attempt, bad) (λ e. absurd (ground arith))
  ]

  attempts_ended :
      (left i : ℕ) (modify : Text → Status → StatusUpdates) (k k' : K) (r : Reply (Unit {0}))
      → attempt api modify k ≡ ended r k'
      → attempts api (suc left) i modify k ≡ (r, k')
  unfolding attempts
  attempts_ended left i modify k k' r e = rw (attempts, e)

  attempts_again :
      (left i : ℕ) (modify : Text → Status → StatusUpdates) (k k' : K)
      → attempt api modify k ≡ conflict k'
      → attempts api (suc (suc left)) i modify k
        ≡ attempts api (suc left) (suc i) modify (api.sleep (16 * suc i) k')
  unfolding attempts
  attempts_again left i modify k k' e =
      let more : (suc left == 0) ≡ false = ground arith in rw (attempts, e) (rw more)

  attempts_exceeded :
      (i : ℕ) (modify : Text → Status → StatusUpdates) (k k' : K)
      → attempt api modify k ≡ conflict k'
      → attempts api 1 i modify k ≡ (exception (codes "Max retries exceeded for status update"), k')
  unfolding attempts
  attempts_exceeded i modify k k' e = rw (attempts, e)

  ended-Applied :
      (left i : ℕ) (modify : Text → Status → StatusUpdates) (j k k' : K) (r : Reply (Unit {0}))
      → Waiting api j k
      → attempt api modify k ≡ ended r k'
      → (attempts api (suc left) i modify k).0 ≡ ok tt
      → Applied api current modify j (attempts api (suc left) i modify k).1
  ended-Applied left i modify j k k' r w e done =
      let same = attempts_ended left i modify k k' r e in
      let fine : r ≡ ok tt = rw same at done in
      rw same ((rw e at (attempt-Attempted modify j k w)) fine)

  attempts-Applied :
      (left i : ℕ) (modify : Text → Status → StatusUpdates) (j k : K)
      → Waiting api j k
      → (attempts api (suc left) i modify k).0 ≡ ok tt
      → Applied api current modify j (attempts api (suc left) i modify k).1
  attempts-Applied zero i modify j k w done = elim (Attempt-cases (attempt api modify k)) [
    | inl (r, (k', e)) ↦ ended-Applied zero i modify j k k' r w e done
    | inr (k', e) ↦ absurd (ground (arith, attempts_exceeded i modify k k' e))
  ]
  attempts-Applied (suc left) i modify j k w done = elim (Attempt-cases (attempt api modify k)) [
    | inl (r, (k', e)) ↦ ended-Applied (suc left) i modify j k k' r w e done
    | inr (k', e) ↦
        let same = attempts_again left i modify k k' e in
        rw same (
          attempts-Applied left (suc i) modify j (api.sleep (16 * suc i) k')
            (slept (16 * suc i) (rw e at (attempt-Attempted modify j k w))) (rw same at done))
  ]

  -- When the server checks versions and one attempt or more is allowed, an update that returns was
  -- applied exactly once and atomically: after reads, refused patches and pauses, one last patch was
  -- accepted, and the status after it is the merge of the status which that patch found, whatever
  -- other writers had made of it, with the updates computed from that very status.
  pub patch_status_with_retry-Applied :
      (max_retries : ℕ) (modify : Text → Status → StatusUpdates) (k : K)
      → 0 < max_retries
      → (patch_status_with_retry api max_retries modify k).0 ≡ ok tt
      → Applied api current modify k (patch_status_with_retry api max_retries modify k).1
  unfolding patch_status_with_retry
  patch_status_with_retry-Applied zero modify k some_retries done = absurd (omega arith)
  patch_status_with_retry-Applied (suc n) modify k some_retries done =
      attempts-Applied n 0 modify k k start done
