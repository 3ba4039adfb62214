-- ===== src/MarcSample/First.antt =====
-- src/yaz-marc-sample.cpp: records 1 to 8 of `marc_records`, by their characters.
use yazpp.Prelude.{List, [], ◌∷◌}
use yazpp.Prelude.Text.{String}

abbrev pub record_one : List String
record_one =
    "00366nam  22001698a 4500001001300000003000400013005001700017008004100034010001700179"
    ∷ "040001300075050001200088100001700100245003000117260001200147263000900159300001100168"
    ∷ "\u{1e}   11224466 \u{1e}DLC\u{1e}00000000000000.0\u{1e}910710c19910701nju           00010 en"
    ∷ "g  \u{1e}  \u{1f}aDLC\u{1f}cDLC\u{1e}00\u{1f}a123-xyz\u{1e}10\u{1f}aJack Collins\u{1e}10\u{1f}aHow to "
    ∷ "program a computer\u{1e}1 \u{1f}aPenguin\u{1e}  \u{1f}a8710\u{1e}  \u{1f}ap. cm.\u{1e}  \u{1f}a   11"
    ∷ "224466 \u{1e}\u{1d}" ∷ []

abbrev pub record_two : List String
record_two =
    "00366nam  22001698a 4500001001300000003000400013005001700017008004100034010001700179"
    ∷ "040001300075050001200088100001700100245003000117260001200147263000900159300001100168"
    ∷ "\u{1e}   11224467 \u{1e}DLC\u{1e}00000000000000.0\u{1e}910710c19910701nju           00010 en"
    ∷ "g  \u{1e}  \u{1f}aDLC\u{1f}cDLC\u{1e}00\u{1f}a123-xyz\u{1e}10\u{1f}aJack Collins\u{1e}10\u{1f}aHow to "
    ∷ "program a computer\u{1e}1 \u{1f}aPenguin\u{1e}  \u{1f}a8710\u{1e}  \u{1f}ap. cm.\u{1e}  \u{1f}a   11"
    ∷ "224467 \u{1e}\u{1d}" ∷ []

abbrev pub record_three : List String
record_three =
    "01369cam  2200265 i 4500001001800000003000400018005001700022008004100039010002201081"
    ∷ "040001800080050002200098082002100120111012100141245034700262260005400609300003000663"
    ∷ "504005100693650005600744650003900800650006200839700002300901700002000924710007100944"
    ∷ "710006601015\u{1e}   73090924 //r82\u{1e}DLC\u{1e}19820524000000.0\u{1e}760609s1974    nyua "
    ∷ "    b    10110 eng  \u{1e}  \u{1f}aDLC\u{1f}cDLC\u{1f}dDLC\u{1e}00\u{1f}aRC71.3\u{1f}b.W67 1971"
    ∷ "\u{1e}00\u{1f}a616.07/575/02854\u{1e}20\u{1f}aWorkshop on Computer Processing of Dynamic Ima"
    ∷ "ges from an Anger Scintillation Camera,\u{1f}cWashington University,\u{1f}d1971.\u{1e}10"
    ∷ "\u{1f}aComputer processing of dynamic images from an Anger scintillation camera :\u{1f}b"
    ∷ "the proceedings of a workshop /\u{1f}ccosponsored by the Biomedical Computer Laborator"
    ∷ "y and the Nuclear Medicine Division, Department of Radiology, School of Medicine, Wa"
    ∷ "shington University, St. Louis, January 18-22, 1971 ; edited by Kenneth B. Larson, J"
    ∷ "erome R. Cox, Jr.\u{1e}0 \u{1f}aNew York :\u{1f}bSociety of Nuclear Medicine,\u{1f}c[c1974]"
    ∷ "\u{1e}  \u{1f}axiv, p. :\u{1f}bill. ;\u{1f}c24 cm.\u{1e}  \u{1f}aIncludes bibliographical refere"
    ∷ "nces and index.\u{1e} 0\u{1f}aRadioisotope scanning\u{1f}xData processing\u{1f}xCongresses."
    ∷ "\u{1e} 0\u{1f}aScintillation cameras\u{1f}xCongresses.\u{1e} 0\u{1f}aImaging systems in medici"
    ∷ "ne\u{1f}xData processing\u{1f}xCongresses.\u{1e}10\u{1f}aLarson, Kenneth B.\u{1e}10\u{1f}aCox, J"
    ∷ "erome R. \u{1e}20\u{1f}aWashington University, St. Louis.\u{1f}bBiomedical Computer Labora"
    ∷ "tory.\u{1e}20\u{1f}aWashington University, St. Louis.\u{1f}bNuclear Medicine Division.\u{1e}"
    ∷ "  \u{1f}a   73090924 //r82\u{1e}\u{1d}" ∷ []

abbrev pub record_four : List String
record_four =
    "00942cam  22002531a 4500001001900000003000400019005001700023008004100040010002300665"
    ∷ "040001800081041001400099050001600113082001600129245007300145260007000218300005000288"
    ∷ "500004800338500009600386630003900482630003900521700003800560700003300598710003400631"
    ∷ "\u{1e}   73209622 //r823\u{1e}DLC\u{1e}19820325000000.0\u{1e}780306m19009999ohu           00"
    ∷ "000 grc  \u{1e}  \u{1f}aDLC\u{1f}cDLC\u{1f}dDLC\u{1e}0 \u{1f}agrchebeng\u{1e}00\u{1f}aBS421\u{1f}b.C64"
    ∷ "\u{1e}00\u{1f}a220.4/4\u{1f}219\u{1e}04\u{1f}aThe Computer Bible /\u{1f}cJ. Arthur Baird, David "
    ∷ "Noel Freedman, editors.\u{1e}0 \u{1f}a[Wooster, Ohio] :\u{1f}bBiblical Research Associates"
    ∷ ",\u{1f}c<1973-c1980   >\u{1e}  \u{1f}av. <2-4, 7-10, 13, 15-18, 20-24   > ;\u{1f}c28 cm.\u{1e}"
    ∷ "  \u{1f}aHebrew and Greek; introductions in English.\u{1e}  \u{1f}aVols. 2, 8: Missoula, M"
    ∷ "ont. : Published by Scholars Press for Biblical Research Associates.\u{1e} 0\u{1f}aBible"
    ∷ ". O.T.\u{1f}xConcordances, Hebrew.\u{1e}00\u{1f}aBible.\u{1f}pN.T.\u{1f}xConcordances, Greek."
    ∷ "\u{1e}10\u{1f}aBaird, J. Arthur\u{1f}q(Joseph Arthur)\u{1e}10\u{1f}aFreedman, David Noel,\u{1f}d"
    ∷ "1922-\u{1e}20\u{1f}aBiblical Research Associates.\u{1e}  \u{1f}a   73209622 //r823\u{1e}\u{1d}"
    ∷ []

abbrev pub record_five : List String
record_five =
    "01033cam  2200253 i 4500001002100000003000400021005001700025008004100042010002500754"
    ∷ "040001800083043001200101050002200113100001900135245010500154260007300259300003800332"
    ∷ "490006800370500003500438504002400473650003400497651004600531700003900577810013800616"
    ∷ "\u{1e}   76357895 /MAP/r82\u{1e}DLC\u{1e}19820806000000.0\u{1e}760407s1974    waua     b    "
    ∷ "00010 eng  \u{1e}  \u{1f}aDLC\u{1f}cDLC\u{1f}dDLC\u{1e}  \u{1f}an-us-wa\u{1e}00\u{1f}aG1467.P8\u{1f}bM"
    ∷ "3 1974\u{1e}10\u{1f}aMairs, John W.\u{1e}14\u{1f}aThe Puget Sound Region :\u{1f}ba portfolio o"
    ∷ "f thematic computer maps /\u{1f}cJohn W. Mairs, Eugene A. Hoerauf.\u{1e}0 \u{1f}a[Bellingh"
    ∷ "am, Wash.] :\u{1f}bCenter for Pacific Northwest Studies,\u{1f}cc1974.\u{1e}  \u{1f}aiii, 41 "
    ∷ "p. :\u{1f}bill. ;\u{1f}c25 x 36 cm.\u{1e}1 \u{1f}aOccasional paper - Center for Pacific Nort"
    ∷ "hwest Studies ; no. 3\u{1e}  \u{1f}aScale of maps ca. 1:1,000,000.\u{1e}  \u{1f}aBibliograph"
    ∷ "y: p. 4.\u{1e} 0\u{1f}aCartography\u{1f}xData processing.\u{1e} 0\u{1f}aPuget Sound region (Wa"
    ∷ "sh.)\u{1f}xCensus\u{1f}xMaps.\u{1e}10\u{1f}aHoerauf, Eugene A.,\u{1f}ejoint author.\u{1e}1 \u{1f}a"
    ∷ "Washington (State).\u{1f}bWestern Washington State College, Bellingham.\u{1f}bCenter for"
    ∷ " Pacific Northwest Studies.\u{1f}tOccasional paper ;\u{1f}vno. 3.\u{1e}  \u{1f}a   76357895 "
    ∷ "/MAP/r82\u{1e}\u{1d}" ∷ []

abbrev pub record_six : List String
record_six =
    "01000pam  2200229 i 4500001001300000003000400013005001700017008004100034010001700753"
    ∷ "020001500075040001800090050001800108082001500126245030400141260004800445300003300493"
    ∷ "504005100526650002800577700002900605710004800634710007100682\u{1e}   77000348 \u{1e}DLC"
    ∷ "\u{1e}19770707000000.0\u{1e}770112s1977    mdua     b    10110 eng  \u{1e}  \u{1f}a083910882"
    ∷ "6\u{1e}  \u{1f}aDLC\u{1f}cDLC\u{1f}dDLC\u{1e}00\u{1f}aRC78.7.T6\u{1f}bR4\u{1e}00\u{1f}a616.07/572\u{1e}0"
    ∷ "0\u{1f}aReconstruction tomography in diagnostic radiology and nuclear medicine :\u{1f}bp"
    ∷ "roceedings of the workshop ... /\u{1f}cedited by Michel M. Ter-Pogossian ... [et al.] "
    ∷ "; co-sponsors, the Edward Mallinckrodt Institute of Radiology and Biomedical Compute"
    ∷ "r Laboratory, Washington University School of Medicine ....\u{1e}0 \u{1f}aBaltimore :"
    ∷ "\u{1f}bUniversity Park Press,\u{1f}cc1977.\u{1e}  \u{1f}axv, 573 p. :\u{1f}bill. ;\u{1f}c24 cm."
    ∷ "\u{1e}  \u{1f}aIncludes bibliographical references and index.\u{1e} 0\u{1f}aTomography\u{1f}xC"
    ∷ "ongresses.\u{1e}20\u{1f}aTer-Pogossian, Michel M.\u{1e}20\u{1f}aEdward Mallinckrodt Institut"
    ∷ "e of Radiology.\u{1e}20\u{1f}aWashington University, St. Louis.\u{1f}bBiomedical Computer "
    ∷ "Laboratory.\u{1e}  \u{1f}a   77000348 \u{1e}\u{1d}" ∷ []

abbrev pub record_seven : List String
record_seven =
    "01493pam  2200277 i 4500001001300000003000400013005001700017008004100034010001701198"
    ∷ "040001800075043001200093050003400105082002800139086001800167111009500185245044800280"
    ∷ "260013800728300003400866490003600900650005900936700003100995700002101026700002001047"
    ∷ "710005001067810008101117\u{1e}   77004773 \u{1e}DLC\u{1e}19770822000000.0\u{1e}770321s1977  "
    ∷ "  dcua          10000 eng  \u{1e}  \u{1f}aDLC\u{1f}cDLC\u{1f}dDLC\u{1e}  \u{1f}an-us---\u{1e}00"
    ∷ "\u{1f}aQC100\u{1f}b.U57 no. 500-8\u{1f}aTA1650\u{1e}00\u{1f}a602/.1 s\u{1f}a621.381.9/598\u{1e}  "
    ∷ "\u{1f}aC13.10:500-8.\u{1e}20\u{1f}aWorkshop on Standards for Image Pattern Recognition,"
    ∷ "\u{1f}cNational Bureau of Standards,\u{1f}d1976.\u{1e}10\u{1f}aComputer science & technology"
    ∷ " :\u{1f}bproceedings of a workshop held at the National Bureau of Standards, Gaithersb"
    ∷ "urg, MD, June 3-4, 1976 /\u{1f}cWorkshop on Standards for Image Pattern Recognition ; "
    ∷ "John M. Evans, Jr., Russell Kirsch, and Roger N. Nagel, editor[s] ; sponsored by Nat"
    ∷ "ional Bureau of Standards, Electronic Industries Association, Institute of Electrica"
    ∷ "l and Electronic Engineers, in cooperation with Association for Computing Machinery."
    ∷ "\u{1e}0 \u{1f}a[Washington] :\u{1f}bU.S. Dept. of Commerce, National Bureau of Standards :"
    ∷ " for sale by the Supt. of Docs., U.S. Govt. Print. Off.,\u{1f}c1977.\u{1e}  \u{1f}avii, 11"
    ∷ "2 p. :\u{1f}bill. ;\u{1f}c26 cm.\u{1e}1 \u{1f}aNBS special publication ; 500-8\u{1e} 0\u{1f}aOpt"
    ∷ "ical pattern recognition\u{1f}xStandards\u{1f}zUnited States.\u{1e}10\u{1f}aEvans, John Mart"
    ∷ "in,\u{1f}d1942-\u{1e}10\u{1f}aKirsch, Russell.\u{1e}10\u{1f}aNagel, Roger N.\u{1e}10\u{1f}aUnited "
    ∷ "States.\u{1f}bNational Bureau of Standards.\u{1e}1 \u{1f}aUnited States.\u{1f}bNational Bure"
    ∷ "au of Standards.\u{1f}tSpecial publication ;\u{1f}v500-8.\u{1e}  \u{1f}a   77004773 \u{1e}\u{1d}"
    ∷ []

abbrev pub record_eight : List String
record_eight =
    "00878cam  2200229 i 4500001001300000003000400013005001700017008004100034010001700631"
    ∷ "040001800075050003800093082002200131086001700153100001900170245008700189260013800276"
    ∷ "300002400414440003400438490003600472650004200508810008100550\u{1e}   77005558 \u{1e}DLC"
    ∷ "\u{1e}19770713000000.0\u{1e}770401s1977    dcu           00010 eng  \u{1e}  \u{1f}aDLC\u{1f}cD"
    ∷ "LC\u{1f}dDLC\u{1e}00\u{1f}aQC100\u{1f}b.U57 no. 500-9\u{1f}aQA76.9.A25\u{1e}00\u{1f}a602/.1 s\u{1f}a"
    ∷ "001.6/4\u{1e}0 \u{1f}aC13.10:500-9\u{1e}10\u{1f}aWood, Helen M.\u{1e}14\u{1f}aThe use of passwor"
    ∷ "ds for controlled access to computer resources /\u{1f}cHelen M. Wood.\u{1e}0 \u{1f}a[Washi"
    ∷ "ngton] :\u{1f}bU.S. Dept. of Commerce, National Bureau of Standards : for sale by the "
    ∷ "Supt. of Docs., U.S. Govt. Print. Off.,\u{1f}c1977.\u{1e}  \u{1f}aiv, 53 p. ;\u{1f}c26 cm."
    ∷ "\u{1e} 0\u{1f}aComputer science & technology\u{1e}1 \u{1f}aNBS special publication ; 500-9"
    ∷ "\u{1e} 0\u{1f}aComputers\u{1f}xAccess control\u{1f}xPasswords.\u{1e}1 \u{1f}aUnited States.\u{1f}b"
    ∷ "National Bureau of Standards.\u{1f}tSpecial publication ;\u{1f}v500-9.\u{1e}  \u{1f}a   7700"
    ∷ "5558 \u{1e}\u{1d}" ∷ []
