-- ===== src/Provider/NsUpdate/Deletes.antt =====
-- What a delete through `NsUpdateProvider` ends with.
use atrium_ddns.Prelude.{Option, List, [], ◌∷◌, All, Bool-cases, inr, inl}
use atrium_ddns.Text.{Text}
use atrium_ddns.Dict.{put}
use atrium_ddns.Address.{RecordType}
use atrium_ddns.Provider.Account.{Provider, rtypes_for}
use atrium_ddns.Provider.Network.{Net, Trace}
use atrium_ddns.Provider.Network.Outcomes.{Answers, Answers-bind, Answers-mono}
use atrium_ddns.Provider.Adapter.{Groups, Results}
use atrium_ddns.Provider.Adapter.Known.{
  IsKnown, AllKnown, Extends, All-Extends, put-Extends, put-IsKnown, all_dnserr-AllKnown,
}
use atrium_ddns.Provider.NsUpdate.{
  Settings, settings, has_settings, delete_one, delete_names, delete_zones, deleterecords, nsupdate,
}

module _ (net : Net) (p : Provider) (s : Settings) (rtypes : List RecordType) where
  delete_one-Answers :
      (zonename hostname : Text) (t : Trace)
      → Answers (λ _ _. Unit) (delete_one net p s zonename hostname rtypes t)
  unfolding delete_one
  delete_one-Answers zonename hostname t = tt

  delete_names-Answers :
      (zonename : Text) (results : Results) (hostnames : List Text) (t : Trace)
      → Answers
          (λ results' _. Extends results results' × All (IsKnown results') hostnames)
          (delete_names net p s zonename rtypes results hostnames t)
  unfolding delete_names
  delete_names-Answers zonename results [] t = (λ name h. h, tt)
  delete_names-Answers zonename results (hostname ∷ hostnames) t =
      Answers-bind (λ _ _. Unit)
        (λ results' _. Extends results results' × All (IsKnown results') (hostname ∷ hostnames))
        (delete_one net p s zonename hostname rtypes)
        (λ status. delete_names net p s zonename rtypes (put results hostname status) hostnames) t
        (delete_one-Answers zonename hostname t)
        (λ status t' _.
          Answers-mono
            (λ results' _.
              Extends (put results hostname status) results' × All (IsKnown results') hostnames)
            (λ results' _. Extends results results' × All (IsKnown results') (hostname ∷ hostnames))
            (delete_names net p s zonename rtypes (put results hostname status) hostnames t')
            (delete_names-Answers zonename (put results hostname status) hostnames t')
            (λ results' _ e. (
              λ name h. e.0 name (put-Extends results hostname status name h),
              (e.0 hostname (put-IsKnown results hostname status), e.1),
            )))

  delete_zones-Answers :
      (results : Results) (groups : Groups) (t : Trace)
      → Answers
          (λ results' _. Extends results results' × AllKnown results' groups)
          (delete_zones net p s rtypes results groups t)
  unfolding delete_zones
  delete_zones-Answers results [] t = (λ name h. h, tt)
  delete_zones-Answers results ((zonename, hostnames) ∷ groups) t =
      Answers-bind (λ first _. Extends results first × All (IsKnown first) hostnames)
        (λ results' _.
          Extends results results' × AllKnown results' ((zonename, hostnames) ∷ groups))
        (delete_names net p s zonename rtypes results hostnames)
        (λ first. delete_zones net p s rtypes first groups) t
        (delete_names-Answers zonename results hostnames t)
        (λ first t' d.
          Answers-mono (λ results' _. Extends first results' × AllKnown results' groups)
            (λ results' _.
              Extends results results' × AllKnown results' ((zonename, hostnames) ∷ groups))
            (delete_zones net p s rtypes first groups t') (delete_zones-Answers first groups t')
            (λ results' _ e. (
              λ name h. e.0 name (d.0 name h),
              (All-Extends first results' hostnames e.0 d.1, e.1),
            )))

-- Whatever the name servers do, a delete through this adapter ends without an exception, with a status
-- for every name that it was handed.
pub nsupdate-deleterecords :
    (net : Net) (p : Provider) (groups : Groups) (rtype : Option RecordType) (t : Trace)
    → Answers (λ results _. AllKnown results groups) (nsupdate.deleterecords net p groups rtype t)
unfolding nsupdate deleterecords
nsupdate-deleterecords net p groups rtype t =
    elim (Bool-cases (has_settings (settings p.account))) [
      | inr e ↦ rw e (all_dnserr-AllKnown groups)
      | inl e ↦ rw e (
          Answers-mono (λ results _. Extends [] results × AllKnown results groups)
            (λ results _. AllKnown results groups)
            (delete_zones net p (settings p.account) (rtypes_for rtype) [] groups t)
            (delete_zones-Answers net p (settings p.account) (rtypes_for rtype) [] groups t)
            (λ results _ d. d.1))
    ]
