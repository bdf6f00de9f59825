-- ===== src/Examples/Printing.antt =====
-- `img ls`, `img du` and `img login` as whole programs, in the host in memory.
use img.Common.{String, true, false, List, [], ◌∷◌, refl, inl}
use img.Common.Int.{pos, negsuc}
use img.Common.Triple.{Triple}
use img.Services.{Services, UsageRecord}
use img.Services.Accounts.{AuthConfig}
use img.Client.Silent.{Said}
use img.Client.Picked.{IsPicked}
use img.Client.Worker.Keeps.{OnHost}
use img.Command.Listing.Table.{Tabled, title, listing}
use img.Fixture.{World, memory, desk, give}
use img.Fixture.Data.{usual, usage_record}
use img.Login.{LoginCommand}
use img.Login.Credentials.{IsChosen, IsComplete}
use img.Main.Commands.{Setup, program}
use img.Main.LoggingIn.{program-login}
use img.Main.Printing.{program-list}
use img.Main.Words.{global_words, filter_words, login_words}
use img.Examples.Commands.{host}
use img.Examples.Listings.{Any, lister, lister-Lists}
use img.Examples.Logins.{IsFree, Holds, desk_stores}

abbrev listing_host : Setup World
listing_host = record host { services = lister }

program-list_example :
    Triple
      (λ s. OnHost Any s × Said [] s)
      (program listing_host ("ls" ∷ global_words usual (filter_words ("b" ∷ []) [])))
      (λ _ s.
        (b : String) × IsPicked false "auto" b
        × Tabled lister (title ∷ []) (listing usual lister-Lists (inl refl) b ("b" ∷ [])) s)
      (λ _. Unit {0})
program-list_example =
    program-list listing_host (λ w. refl) usual refl (inl refl) [] (λ v w h. h) lister-Lists
      ("b" ∷ []) []

-- Two records, one of them in use and one without a size.
abbrev records : List UsageRecord
records =
    usage_record (pos 5) true ∷ usage_record (pos 3) false ∷ usage_record (negsuc 0) false ∷ []

abbrev reporting : Services World
reporting = record memory {
  workers = record memory.workers { disk_usage = λ h ctx f. give records };
}

abbrev reporter : Setup World
reporter = record host { services = reporting }

abbrev piped : LoginCommand
piped = record { user = "bob"; password = ""; password_stdin = true; server_address = "" }

program-login_example :
    Triple
      (OnHost IsFree)
      (program host ("login" ∷ global_words usual (login_words piped ("r.example" ∷ []))))
      (λ _ s.
        (a : AuthConfig) × (address : String) × Holds a s.host
        × IsChosen desk ("r.example" ∷ []) address
        × IsComplete address a)
      (OnHost IsFree)
program-login_example =
    program-login host desk_stores usual (inl refl) piped refl ("r.example" ∷ [])
