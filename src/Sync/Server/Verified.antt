-- ===== src/Sync/Server/Verified.antt =====
-- sync/mod.rs, `put_done`: what an upload must have met to be installed.
use mathlib.Core.Path.{subst}
use krymux.Base.{
  ℕ, zero, suc, ◌≡◌, refl, sym, ap, ◌∙◌, ◌⊎◌, inl, inr, Option, none, some, List, [], ◌∷◌, ◌++◌,
  Bool, true, false, ◌==◌, ==_iff, length, is_empty, Result, ok, err, Bool-cases, arith,
}
use krymux.Base.Bytes.{Bytes, bytes_eq, bytes_eq→eq}
use krymux.Sync.Disk.{IsLawful, IsLocal, IsFlushLocal, Outcome}
use krymux.Sync.Protocol.{SyncMessage, json}
use krymux.Sync.Protocol.Messages.{put_ack}
use krymux.Sync.Server.Paths.{PathError, safe_join}
use krymux.Sync.Server.Sound.{IsSound, judged-incoming}
use krymux.Sync.Server.State.{Env, Session, IncomingFile}
use krymux.Sync.Server.Upload.{
  verify, flush_error, after_rename, rename_loop, rename_tries, renamed, install, judged,
  finish_put, handle_put_done,
}

pub empty : (s : Bytes) → is_empty s ≡ true → s ≡ []
empty [] h = refl
empty (c ∷ s) h = cc h

Outcome-cases :
    {D : Type 0} (o : Outcome D)
    → ((d : D) × (o ≡ (d, none))) ⊎ ((d : D) × (x : Bytes) × (o ≡ (d, some x)))
Outcome-cases (d, none) = inl (d, refl)
Outcome-cases (d, some x) = inr (d, x, refl)

module _ {D W : Type 0} (env : Env D W) where
  -- The upload is installed: it has the declared size and, where one was declared, the declared hash;
  -- its path is safe; the file at that path has its bytes, all other files but the temporary one are as
  -- they were on the disk `start`, and the client is told so.
  pub record Installed (inc : IncomingFile W) (start : D) (out : List SyncMessage) (t : Session D W)
      : Type 0 where
    pub size : length inc.hashed ≡ inc.expected_size
    pub hash : (inc.expected_hash ≡ []) ⊎ (env.sha1_hex inc.hashed ≡ inc.expected_hash)
    pub dest : Bytes
    pub joined : safe_join env.root inc.rel ≡ ok dest
    pub contents : env.disk.read t.disk dest ≡ some inc.hashed
    pub others :
        (q : Bytes)
        → ¬ (q ≡ inc.tmp)
        → ¬ (q ≡ dest)
        → env.disk.read t.disk q ≡ env.disk.read start q
    pub told : t.out ≡ out ++ json (put_ack inc.rel true []) ∷ []

  -- The upload is refused: its temporary file is removed, every other file, that at its path included, is
  -- as it was on the disk `start`, and the client is told why.
  pub record Refused (inc : IncomingFile W) (start : D) (out : List SyncMessage) (t : Session D W)
      : Type 0 where
    pub reason : Bytes
    pub before : D
    pub gone : t.disk ≡ (env.disk.remove_file inc.tmp before).0
    pub others : (q : Bytes) → ¬ (q ≡ inc.tmp) → env.disk.read t.disk q ≡ env.disk.read start q
    pub said : t.out ≡ out ++ json (put_ack inc.rel false reason) ∷ []

  abbrev Verdict : IncomingFile W → D → List SyncMessage → Session D W → Type 0
  Verdict inc start out t = Installed inc start out t ⊎ Refused inc start out t

  -- A verdict that starts from a disk with the same files but the temporary one.
  Verdict-from :
      (inc : IncomingFile W) (start start' : D) (out : List SyncMessage) (t : Session D W)
      → ((q : Bytes) → ¬ (q ≡ inc.tmp) → env.disk.read start' q ≡ env.disk.read start q)
      → Verdict inc start' out t
      → Verdict inc start out t
  Verdict-from inc start start' out t same (inl i) = inl record {
    size = i.size;
    hash = i.hash;
    dest = i.dest;
    joined = i.joined;
    contents = i.contents;
    others = λ q a b. i.others q a b ∙ same q a;
    told = i.told;
  }
  Verdict-from inc start start' out t same (inr r) = inr record {
    reason = r.reason;
    before = r.before;
    gone = r.gone;
    others = λ q a. r.others q a ∙ same q a;
    said = r.said;
  }

  verify-none :
      (inc : IncomingFile W)
      → verify env inc ≡ none
      → (inc.received ≡ inc.expected_size)
        × ((inc.expected_hash ≡ []) ⊎ (env.sha1_hex inc.hashed ≡ inc.expected_hash))
  unfolding verify
  verify-none inc e = elim (Bool-cases (inc.received == inc.expected_size)) [
    | inr n ↦ ground (arith, n)
    | inl y ↦ (
      (==_iff inc.received inc.expected_size).0 y,
      elim (Bool-cases (is_empty inc.expected_hash)) [
        | inl h ↦ inl (empty inc.expected_hash h)
        | inr h ↦ elim (Bool-cases (bytes_eq (env.sha1_hex inc.hashed) inc.expected_hash)) [
          | inl q ↦ inr (bytes_eq→eq _ _ q)
          | inr q ↦ ground (arith, y, h, q)
        ]
      ],
    )
  ]

  rename_loop-read :
      IsLawful env.disk
      → (n : ℕ) (tmp dest : Bytes) (d e : D) (old : Bytes) → env.disk.read d tmp ≡ some old
      → rename_loop env n tmp dest d ≡ (e, true)
      → env.disk.read e dest ≡ some old
  unfolding rename_loop
  rename_loop-read L zero tmp dest d e old has run = cc (ap (λ x. x.1) run)
  rename_loop-read L (suc n) tmp dest d e old has run =
      elim (Outcome-cases (env.disk.rename tmp dest d)) [
        | inl (d', q) ↦
            let done =
              sym (ap (λ o. after_rename env o (rename_loop env n tmp dest o.0)) q) ∙ run in
            rw (sym (ap (λ x. x.0) done)) (L.read-rename d d' tmp dest q ∙ has)
        | inr (d', x, q) ↦
            let later =
              sym (ap (λ o. after_rename env o (rename_loop env n tmp dest o.0)) q) ∙ run in
            rename_loop-read L n tmp dest d' e old (L.rename_failed d d' tmp dest tmp x q ∙ has)
              later
      ]

  -- The tries leave the other files alone, and a failed run of them every file.
  rename_loop-others :
      IsLawful env.disk
      → IsLocal env.disk
      → (n : ℕ) (tmp dest : Bytes) (d e : D) (done : Bool) (q : Bytes)
      → rename_loop env n tmp dest d ≡ (e, done)
      → (done ≡ false) ⊎ (¬ (q ≡ tmp) × ¬ (q ≡ dest))
      → env.disk.read e q ≡ env.disk.read d q
  unfolding rename_loop
  rename_loop-others L local zero tmp dest d e done q run a =
      ap (λ x. env.disk.read x.0 q) (sym run)
  rename_loop-others L local (suc n) tmp dest d e done q run a =
      elim (Outcome-cases (env.disk.rename tmp dest d)) [
        | inl (d', r) ↦
            let step =
              sym (ap (λ o. after_rename env o (rename_loop env n tmp dest o.0)) r) ∙ run in
            elim a [
              | inl failed ↦ cc (ap (λ x. x.1) step ∙ failed)
              | inr (b, c) ↦
                  ap (λ x. env.disk.read x.0 q) (sym step)
                  ∙ ap (λ x. env.disk.read x.0 q) (sym r)
                  ∙ local.read_renamed d tmp dest q b c
            ]
        | inr (d', x, r) ↦
            let step =
              sym (ap (λ o. after_rename env o (rename_loop env n tmp dest o.0)) r) ∙ run in
            rename_loop-others L local n tmp dest d' e done q step a
            ∙ L.rename_failed d d' tmp dest q x r
      ]

  module _ (L : IsLawful env.disk) (local : IsLocal env.disk) where
    refused :
        (inc : IncomingFile W) (reason : Bytes) (start before : D) (out : List SyncMessage)
        (t : Session D W)
        → t.disk ≡ (env.disk.remove_file inc.tmp before).0
        → t.out ≡ out ++ json (put_ack inc.rel false reason) ∷ []
        → ((q : Bytes) → env.disk.read before q ≡ env.disk.read start q)
        → Verdict inc start out t
    refused inc reason start before out t gone said same = inr record {
      reason = reason;
      before = before;
      gone = gone;
      others =
          λ q a. ap (λ d. env.disk.read d q) gone ∙ local.read_removed before inc.tmp q a ∙ same q;
      said = said;
    }

    renamed_lem :
        (inc : IncomingFile W) (dest : Bytes) (o : D × Bool) (s : Session D W)
        → verify env inc ≡ none
        → IsSound inc
        → safe_join env.root inc.rel ≡ ok dest
        → env.disk.read s.disk inc.tmp ≡ some inc.hashed
        → rename_loop env rename_tries inc.tmp dest s.disk ≡ o
        → Verdict inc s.disk s.out (renamed env inc dest o s)
    unfolding renamed
    renamed_lem inc dest (d, true) s v i j has run =
        let good = verify-none inc v in
        inl record {
          size = sym i.counted ∙ good.0;
          hash = good.1;
          dest = dest;
          joined = j;
          contents =
              L.read-set_file_times d dest dest inc.mtime_ms
              ∙ rename_loop-read L rename_tries inc.tmp dest s.disk d inc.hashed has run;
          others = λ q a b.
              L.read-set_file_times d dest q inc.mtime_ms
              ∙ rename_loop-others L local rename_tries inc.tmp dest s.disk d true q run
                  (inr (a, b));
          told = refl;
        }
    renamed_lem inc dest (d, false) s v i j has run =
        refused inc _ s.disk d s.out _ refl refl (λ q.
          rename_loop-others L local rename_tries inc.tmp dest s.disk d false q run (inl refl))

    install_lem :
        (inc : IncomingFile W) (r : Result PathError Bytes) (s : Session D W)
        → verify env inc ≡ none
        → IsSound inc
        → safe_join env.root inc.rel ≡ r
        → env.disk.read s.disk inc.tmp ≡ some inc.hashed
        → Verdict inc s.disk s.out (install env inc r s)
    unfolding install
    install_lem inc (ok dest) s v i j has =
        renamed_lem inc dest (rename_loop env rename_tries inc.tmp dest s.disk) s v i j has refl
    install_lem inc (err e) s v i j has = refused inc _ s.disk s.disk s.out _ refl refl (λ q. refl)

    judged_lem :
        (inc : IncomingFile W) (o : Option Bytes) (s : Session D W)
        → (o ≡ none → verify env inc ≡ none)
        → IsSound inc
        → (o ≡ none → env.disk.read s.disk inc.tmp ≡ some inc.hashed)
        → Verdict inc s.disk s.out (judged env inc o s)
    unfolding judged
    judged_lem inc none s v i has =
        install_lem inc (safe_join env.root inc.rel) s (v refl) i refl (has refl)
    judged_lem inc (some e) s v i has = refused inc e s.disk s.disk s.out _ refl refl (λ q. refl)

    flush_error-none : (v e : Option Bytes) → flush_error env v e ≡ none → (v ≡ none) × (e ≡ none)
    flush_error-none v none h = (h, refl)
    flush_error-none v (some x) h = cc h

    finish_lem :
        IsFlushLocal env.disk
        → (inc : IncomingFile W) (s : Session D W) → IsSound inc
        → env.disk.read s.disk inc.tmp ≡ some inc.hashed
        → let t = finish_put env (some inc) s in
          (t.incoming ≡ none) × (Installed inc s.disk s.out t ⊎ Refused inc s.disk s.out t)
    unfolding finish_put
    finish_lem F inc s i has =
        let d = (env.disk.flush inc.tmp s.disk).0 in
        let e = (env.disk.flush inc.tmp s.disk).1 in
        let verdict = flush_error env (verify env inc) e in
        let both = flush_error-none (verify env inc) e in
        let flushed = record s { disk = d; incoming = none } in
        (
          judged-incoming env inc verdict flushed,
          Verdict-from inc s.disk d s.out (judged env inc verdict flushed)
              (λ q a. F.read_flushed s.disk inc.tmp q a)
              (judged_lem inc verdict flushed (λ h. (both h).0) i
                (λ h. L.read-flush s.disk d inc.tmp inc.tmp (ap (λ x. (d, x)) (both h).1) ∙ has)),
        )

  -- When a client ends an upload whose temporary file holds what was hashed, on a disk whose calls leave
  -- alone the paths that they do not name, no upload is left in flight, and the file is installed with
  -- the declared size and hash, or refused and its temporary file removed. Every file but the temporary
  -- one, and the target of an upload that is installed, is as it was. The client gets one frame more,
  -- with the verdict.
  pub handle_put_done_lem :
      IsLawful env.disk
      → IsLocal env.disk
      → IsFlushLocal env.disk
      → (inc : IncomingFile W) (s : Session D W) → s.incoming ≡ some inc
      → IsSound inc
      → env.disk.read s.disk inc.tmp ≡ some inc.hashed
      → let t = handle_put_done env s in
        (t.incoming ≡ none) × (Installed inc s.disk s.out t ⊎ Refused inc s.disk s.out t)
  unfolding handle_put_done
  handle_put_done_lem L local F inc s e i has =
      subst
        (λ o.
          ((finish_put env o s).incoming ≡ none)
          × (Installed inc s.disk s.out (finish_put env o s)
              ⊎ Refused inc s.disk s.out (finish_put env o s)))
        (sym e) (finish_lem L local F inc s i has)
